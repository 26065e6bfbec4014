-- ===== src/ExecutionCore/Replay/Walks.antt =====
-- What a log of `replay` in execution_core.rs holds for one object, read off the log alone: the
-- object's events, and the walk that they make through the contract's table.
use clinx.Prelude.{
  String, ◌≡◌, Bool, false, not, ◌&&◌, some, none, List, [], ◌∷◌, Memᴰ, suc, ◌==◌, any, length,
  if◌then◌else◌,
}
use clinx.Prelude.Int.{pos}
use clinx.Prelude.Maps.{Key}
use clinx.Json.{Json, string}
use clinx.Json.Access.{◌!◌, as_str, as_i64, is_text}
use clinx.External.{External}
use clinx.ExecutionCore.{apply}
use clinx.ExecutionCore.Contract.{Edge, ObjectContract}
use clinx.ExecutionCore.Transition.{transition}

abbrev pub has_id : String → Json → Bool
has_id i e = is_text (e ! "event_id") i

-- An earlier event of the log has the same id.
abbrev pub is_repeated : Json → List Json → Bool
is_repeated e past = elim (as_str (e ! "event_id")) [ none ↦ false | some i ↦ any (has_id i) past ]

abbrev pub is_of : Key → Json → Bool
is_of k e = is_text (e ! "payload" ! "object") k.0 && is_text (e ! "payload" ! "id") k.1

-- The events of an object in a log, in both of which the latest event comes first, without those
-- that repeat the id of an earlier event.
unfoldable pub events_of : Key → List Json → List Json
events_of k [] = []
events_of k (e ∷ past) =
    let earlier = events_of k past in
    if not (is_repeated e past) && is_of k e then e ∷ earlier else earlier

-- The log with its latest event first, in front of the earlier ones.
unfoldable pub latest_first : List Json → List Json → List Json
latest_first [] past = past
latest_first (e ∷ es) past = latest_first es (e ∷ past)

-- The state that an object starts in, by its name.
abbrev pub initial_name : String → ObjectContract → String
initial_name name obj = if name == "Event" then "ABSENT" else obj.initial

-- The events, latest first, lead from the initial state to a state, each by an edge of the table,
-- numbered from one without a gap, and at a version that counts the events before it.
pub data Walk (w : External) (name : String) (c : ObjectContract)
    : List Json → String → Type 0 where
  here : Walk w name c [] (initial_name name c)
  step :
      {events : List Json} {from : String} (e : Json) (edge : Edge)
      → Walk w name c events from
      → Memᴰ edge c.transitions
      → edge.from ≡ from
      → e ! "payload" ! "from" ≡ string from
      → e ! "payload" ! "to" ≡ string edge.to
      → as_i64 (e ! "sequence") ≡ some (pos (suc (length events)))
      → as_i64 (e ! "payload" ! "version") ≡ some (pos (length events))
      → transition w (e ! "payload") ≡ apply
      → Walk w name c (e ∷ events) edge.to
