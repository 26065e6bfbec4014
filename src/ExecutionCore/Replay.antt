-- ===== src/ExecutionCore/Replay.antt =====
-- `replay` of execution_core.rs: a log of events is folded into one stream per object, or refused
-- with the verdict of the first event that does not fit.
pub mod Steps
pub mod Walks
pub mod Traces
pub mod History
pub mod Repeats
pub mod Generations
use clinx.Prelude.{
  ℕ, suc, ◌+◌, String, Bool, true, false, not, ◌&&◌, ◌||◌, Option, none, some, List, [], ◌∷◌, ◌==◌,
  all, any, unwrap_or, is_some_and, if◌then◌else◌,
}
use clinx.Prelude.Int.{ℤ, pos, negsuc, ltb_ℤ, eqb_option}
use clinx.Prelude.Results.{Result, ok, err, ◌>>=◌}
use clinx.Prelude.Maps.{Key, same_key, find, insert}
use clinx.Json.{
  Json, null, number, string, array, object, Number, pos_int, neg_int, entries, of_list, fields_of,
}
use clinx.Json.Access.{◌!◌, as_str, as_i64, as_object, is_null, is_text}
use clinx.Json.Equality.{json_eq}
use clinx.External.{External}
use clinx.ExecutionCore.{Verdict, reject, hold_unknown, apply, duplicate, both}
use clinx.ExecutionCore.Contract.{ObjectContract, contract_object}
use clinx.ExecutionCore.Evidence.{keys, text, truth}
use clinx.ExecutionCore.Canonical.{canonical, digest}
use clinx.ExecutionCore.Transition.{transition}

pub record Stream : Type 0 where
  pub seq : ℕ
  pub version : ℤ
  pub state : Json

-- The loop's variables.
pub record Replayed : Type 0 where
  pub streams : List (Key × Stream)
  pub seen : List (String × Json)
  pub ids : List (String × String)
  pub bindings : List (Key × Json)
  pub generations : List (Key × ℤ)

abbrev pub nothing_replayed : Replayed
nothing_replayed = record { streams = []; seen = []; ids = []; bindings = []; generations = [] }

abbrev pub event_names : List String
event_names =
    "family" ∷ "contract_version" ∷ "schema_version" ∷ "event_id" ∷ "stream_id" ∷ "sequence"
    ∷ "payload" ∷ "payload_hash" ∷ "scope" ∷ "key" ∷ []

unfoldable pub lookup_seen : String → List (String × Json) → Option Json
lookup_seen k [] = none
lookup_seen k ((j, e) ∷ m) = if j == k then some e else lookup_seen k m

unfoldable pub well_enveloped : Json → Bool
well_enveloped e =
    keys e event_names
    && (is_text (e ! "family") "CLINX_EXECUTION_CORE_V1"
        && (is_text (e ! "contract_version") "1.0.0"
            && (eqb_option (as_i64 (e ! "schema_version")) (some (pos 1))
                && (text (e ! "event_id") && (text (e ! "scope") && text (e ! "key"))))))

-- The state that an object's first event must leave.
unfoldable pub initial_state : String → ObjectContract → Json
initial_state name obj = if name == "Event" then string "ABSENT" else string obj.initial

abbrev of_ℤ : ℤ → Number
of_ℤ (pos n) = pos_int n
of_ℤ (negsuc n) = neg_int n

-- One row of the answer, its members in key order.
unfoldable pub stream_row : Key × Stream → Json
stream_row ((name, id), s) = object (
    fields_of (
      ("id", string id)
      ∷ ("lifecycle", s.state)
      ∷ ("object", string name)
      ∷ ("sequence", number (pos_int s.seq))
      ∷ ("version", number (of_ℤ s.version))
      ∷ []))

unfoldable pub stream_rows : List (Key × Stream) → List Json
unfolding stream_row
stream_rows [] = []
stream_rows (s ∷ ss) = stream_row s ∷ stream_rows ss

-- The stream after the event. Its next version is an integer, since `transition` applied.
abbrev pub stepped : Json → Stream → Stream
stepped e stream = record {
  seq = stream.seq + 1;
  version = unwrap_or (as_i64 (e ! "payload" ! "next_version")) (pos 0);
  state = e ! "payload" ! "to";
}

-- `if v != "APPLY" { return Err(v.into()); }`
abbrev pub applied : Verdict → Result Verdict (Unit {0})
applied apply = ok tt
applied v = err v

module _ (w : External) where
  unfoldable pub event_ids : Json → String × String
  event_ids e = (w.print (e ! "scope"), w.print (e ! "key"))

  -- The event is the next one of its stream.
  unfoldable pub continues : Json → String → String → Stream → Bool
  continues e name id s =
      let r = e ! "payload" in
      json_eq w (e ! "stream_id") (array (of_list (string name ∷ string id ∷ [])))
      && (eqb_option (as_i64 (e ! "sequence")) (some (pos (s.seq + 1)))
          && (eqb_option (as_i64 (r ! "version")) (some s.version)
              && json_eq w (r ! "from") s.state))

  -- A member of the stream's last binding that the new one does not repeat.
  unfoldable pub binding_conflicts : Json → Json → Bool
  binding_conflicts prior b = is_some_and (as_object prior) (λ o.
      any (λ e. not (e.0 == "generation") && (not (is_null e.1) && not (json_eq w (b ! e.0) e.1)))
        (entries o))

  -- A binding in the facts must extend the stream's last one, at no older generation.
  unfoldable pub bind : Key → Json → Replayed → Result Verdict Replayed
  unfolding binding_conflicts
  bind key b s =
      if truth w b
      then elim (as_i64 (b ! "generation")) [
        | none ↦ err reject
        | some g ↦
            if is_some_and (find key s.bindings) (λ prior. binding_conflicts prior b)
              || is_some_and (find key s.generations) (λ old. ltb_ℤ g old)
            then err reject
            else ok (record s {
              bindings = insert key b s.bindings;
              generations = insert key g s.generations;
            })
      ]
      else ok s

  -- `streams.insert`, `seen.insert`.
  unfoldable pub advance : Key → Json → String → Stream → Replayed → Replayed
  advance key e eid stream s = record s {
    streams = insert key (stepped e stream) s.streams;
    seen = (eid, e) ∷ s.seen;
  }

  -- An event of the named object, whose scope and key are new.
  unfoldable pub replay_payload :
      Json → String → String → String → ObjectContract → Replayed → Result Verdict Replayed
  unfolding advance
  replay_payload e eid name id obj s =
      let stream =
        unwrap_or (find (name, id) s.streams)
          (record { seq = 0; version = pos 0; state = initial_state name obj }) in
      if not (continues e name id stream) then err reject else do
        _ ← applied (transition w (e ! "payload"))
        bound ← bind (name, id) (e ! "payload" ! "facts" ! "binding") s
        ok (advance (name, id) e eid stream bound)

  -- An event that no event before it repeats.
  unfoldable pub replay_new : Json → String → Replayed → Result Verdict Replayed
  replay_new e eid s =
      if any (same_key (event_ids e)) s.ids
      then err reject
      else elim (both (as_str (e ! "payload" ! "object")) (as_str (e ! "payload" ! "id"))) [
        | none ↦ err reject
        | some (name, id) ↦ elim (contract_object name) [
          | none ↦ err reject
          | some obj ↦ replay_payload e eid name id obj (record s { ids = event_ids e ∷ s.ids })
        ]
      ]

  -- The loop's body. `continue` is `ok s`.
  unfoldable pub replay_event : Json → Replayed → Result Verdict Replayed
  replay_event e s =
      if not (well_enveloped e)
      then err reject
      else if not (is_text (e ! "payload_hash") (digest w (e ! "payload")))
      then err reject
      else elim (as_str (e ! "event_id")) [
        | none ↦ err reject
        | some eid ↦ elim (lookup_seen eid s.seen) [
          | some prior ↦ if canonical w prior == canonical w e then ok s else err reject
          | none ↦ replay_new e eid s
        ]
      ]

  unfoldable pub replay_events : List Json → Replayed → Result Verdict Replayed
  replay_events [] s = ok s
  replay_events (e ∷ es) s = do next ← replay_event e s; replay_events es next

  unfoldable pub replay : List Json → Result Verdict Json
  replay events = do
    s ← replay_events events nothing_replayed
    ok (array (of_list (stream_rows s.streams)))
