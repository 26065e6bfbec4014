-- ===== src/ExecutionCore/Replay/Traces.antt =====
-- The stream that `replay` of execution_core.rs keeps for an object, next to the object's events.
use clinx.Prelude.{
  ◌+◌, ◌<◌, String, ◌≡◌, refl, subst, true, Option, none, some, List, [], ◌∷◌, Memᴰ, arith, any,
  length, is_some,
}
use clinx.Prelude.Int.{pos, eqb_option-some}
use clinx.Prelude.Maps.{Key, find}
use clinx.Prelude.Sorted.{IsSorted}
use clinx.Json.{Json, string}
use clinx.Json.Access.{◌!◌, as_str, as_i64}
use clinx.Json.Equality.{json_eq, json_eq-string}
use clinx.External.{External}
use clinx.ExecutionCore.{apply}
use clinx.ExecutionCore.Contract.{ObjectContract, contract_object}
use clinx.ExecutionCore.Transition.{transition}
use clinx.ExecutionCore.Transition.Applied.{transition-IsApplied, requested_edge-IsRequested}
use clinx.ExecutionCore.Replay.{Stream, Replayed, initial_state, continues, stepped, lookup_seen}
use clinx.ExecutionCore.Replay.Walks.{has_id, events_of, initial_name, Walk, here, step}
use clinx.ExecutionCore.Replay.Steps.{current}

-- The stream stands where its events lead, and counts them twice: as a sequence and as a version.
pub record IsHistory (w : External) (name : String) (events : List Json) (s : Stream) : Type 0 where
  pub contract : ObjectContract
  pub known : contract_object name ≡ some contract
  pub lifecycle : String
  pub spelled : s.state ≡ string lifecycle
  pub walked : Walk w name contract events lifecycle
  pub numbered : s.seq ≡ length events
  pub counted : s.version ≡ pos (length events)

-- An object without an event has no stream, and an object with events has the stream of them all.
abbrev pub IsTraced : External → Key → List Json → Option Stream → Type 0
IsTraced w k events none = events ≡ []
IsTraced w k events (some st) = (0 < length events) × IsHistory w k.0 events st

-- What the loop knows after the events of `past`, the latest first.
pub record IsReplayed (w : External) (past : List Json) (s : Replayed) : Type 0 where
  pub seen_ids : (i : String) → is_some (lookup_seen i s.seen) ≡ any (has_id i) past
  pub at_key : (k : Key) → IsTraced w k (events_of k past) (find k s.streams)
  pub ordered : IsSorted s.streams

module _ (w : External) where
  pub continues_parts :
      (e : Json) (name id : String) (st : Stream)
      → continues w e name id st ≡ true
      → (as_i64 (e ! "payload" ! "version") ≡ some st.version)
        × (json_eq w (e ! "payload" ! "from") st.state ≡ true)
        × (as_i64 (e ! "sequence") ≡ some (pos (st.seq + 1)))
  unfolding continues
  continues_parts e name id st h =
      (eqb_option-some _ _ (ground arith), ground arith, eqb_option-some _ _ (ground arith))

  initial_state-IsHistory :
      (name : String) (obj : ObjectContract)
      → contract_object name ≡ some obj
      → IsHistory w name [] (record { seq = 0; version = pos 0; state = initial_state name obj })
  unfolding initial_state
  initial_state-IsHistory name obj known = record {
    contract = obj;
    known = known;
    lifecycle = initial_name name obj;
    spelled = ground arith;
    walked = here;
    numbered = refl;
    counted = refl;
  }

  pub current-IsHistory :
      (s : Replayed) (k : Key) (obj : ObjectContract) (events : List Json)
      → contract_object k.0 ≡ some obj
      → (o : Option Stream) → find k s.streams ≡ o
      → IsTraced w k events o
      → IsHistory w k.0 events (current s k obj)
  current-IsHistory s k obj events known none new empty =
      rw (new, empty) (initial_state-IsHistory k.0 obj known)
  current-IsHistory s k obj events known (some st) old (_, history) = rw old history

  -- One applied step extends a history by its event.
  pub step-IsHistory :
      (e : Json) (name id : String) (events : List Json) (st : Stream)
      → IsHistory w name events st
      → as_str (e ! "payload" ! "object") ≡ some name
      → continues w e name id st ≡ true
      → transition w (e ! "payload") ≡ apply
      → IsHistory w name (e ∷ events) (stepped e st)
  step-IsHistory e name id events st h named goes applies =
      let r = e ! "payload" in
      let a = transition-IsApplied w r applies in
      let q = requested_edge-IsRequested r a.edge a.requested in
      let (v, version, next, _) = a.counts in
      let (was, from, numbered) = continues_parts e name id st goes in
      let same_name : q.name ≡ name = ground (arith, q.named) in
      let same : q.contract ≡ h.contract =
        ground
          (arith, h.known, subst (λ n. contract_object n ≡ some q.contract) same_name q.found) in
      let start : r ! "from" ≡ string h.lifecycle =
        json_eq-string w _ _ (subst (λ x. json_eq w (r ! "from") x ≡ true) h.spelled from) in
      record {
        contract = h.contract;
        known = h.known;
        lifecycle = a.edge.to;
        spelled = q.fits.to;
        walked =
            step e a.edge h.walked (subst (λ c. Memᴰ a.edge c.transitions) same q.listed)
              (ground (arith, q.fits.from)) start q.fits.to (ground (arith, h.numbered))
              (ground (arith, h.counted)) applies;
        numbered = ground (arith, h.numbered);
        counted = ground (arith, h.counted);
      }
