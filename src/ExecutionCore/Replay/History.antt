-- ===== src/ExecutionCore/Replay/History.antt =====
-- The events of each object in a log and the stream that `replay` in execution_core.rs ends with.
use clinx.Prelude.{
  String, ◌≡◌, refl, sym, subst, inl, inr, Bool, true, false, Option, some, List, [], ◌∷◌, arith,
  ◌==◌, eq_iff, if◌then◌else◌, any, is_some,
}
use clinx.Prelude.Results.{ok, >>=-eq-ok, ok-injective}
use clinx.Prelude.Maps.{Key, same_key, find, find-insert}
use clinx.Prelude.Sorted.{insert-IsSorted}
use clinx.Json.{Json, string, array, of_list}
use clinx.Json.Access.{◌!◌, as_str, is_text}
use clinx.External.{External}
use clinx.ExecutionCore.Replay.{
  Stream, Replayed, nothing_replayed, stepped, replay_event, replay_events, replay, stream_rows,
  lookup_seen,
}
use clinx.ExecutionCore.Replay.Traces.{
  IsHistory, IsTraced, IsReplayed, current-IsHistory, step-IsHistory,
}
use clinx.ExecutionCore.Replay.Walks.{has_id, is_repeated, is_of, events_of, latest_first}
use clinx.ExecutionCore.Replay.Steps.{
  current, Advanced, Repeated, Advanced-seen, Advanced-streams, replay_event-Advanced,
}

is_text-as_str : (v : Json) (s t : String) → as_str v ≡ some s → is_text v t ≡ (s == t)
unfolding as_str is_text
is_text-as_str (string x) s t h = ground arith
is_text-as_str _ s t h = absurd (ground arith)

same_key-eq : (k j : Key) → same_key k j ≡ true → k ≡ j
same_key-eq (a, b) (c, d) h = ground (arith, eq_iff a c, eq_iff b d)

module _ (w : External) where
  IsTraced-step :
      (k : Key) (b : Bool) (e : Json) (events : List Json) (st : Stream) (o : Option Stream)
      → (b ≡ true → IsHistory w k.0 (e ∷ events) st)
      → IsTraced w k events o
      → IsTraced w k (if b then e ∷ events else events) (if b then some st else o)
  IsTraced-step k true e events st o new old = (omega arith, new refl)
  IsTraced-step k false e events st o new old = old

  Advanced-is_repeated :
      (e : Json) (past : List Json) (s s' : Replayed)
      → Advanced w e s s'
      → IsReplayed w past s
      → is_repeated e past ≡ false
  Advanced-is_repeated e past s s' a all =
      ground (arith, a.delivered, a.unseen, all.seen_ids a.event_id)

  Advanced-has_id :
      (e : Json) (s s' : Replayed) (a : Advanced w e s s') (i : String)
      → has_id i e ≡ (a.event_id == i)
  Advanced-has_id e s s' a i = is_text-as_str (e ! "event_id") a.event_id i a.delivered

  Advanced-is_of :
      (e : Json) (s s' : Replayed) (a : Advanced w e s s') (k : Key)
      → is_of k e ≡ same_key (a.name, a.id) k
  Advanced-is_of e s s' a k = ground (
    arith,
    is_text-as_str (e ! "payload" ! "object") a.name k.0 a.named,
    is_text-as_str (e ! "payload" ! "id") a.id k.1 a.identified,
  )

  Advanced-IsTraced :
      (e : Json) (past : List Json) (s s' : Replayed)
      → Advanced w e s s'
      → IsReplayed w past s
      → (k : Key) → IsTraced w k (events_of k (e ∷ past)) (find k s'.streams)
  unfolding events_of
  Advanced-IsTraced e past s s' a all k =
      let key : Key = (a.name, a.id) in
      let stream = current s key a.contract in
      rw
        (
          Advanced-streams w e s s' a,
          find-insert key k (stepped e stream) s.streams,
          Advanced-is_repeated e past s s' a all,
          Advanced-is_of e s s' a k,
        )
        (IsTraced-step k (same_key key k) e (events_of k past) (stepped e stream) (find k s.streams)
          (λ same. extended same) (all.at_key k))
    where
      extended :
          same_key (a.name, a.id) k ≡ true
          → IsHistory w k.0 (e ∷ events_of k past) (stepped e (current s (a.name, a.id) a.contract))
      extended same =
          let key : Key = (a.name, a.id) in
          let equal : key ≡ k = same_key-eq key k same in
          let history =
            current-IsHistory w s key a.contract (events_of key past) a.known (find key s.streams)
              refl (all.at_key key) in
          subst
            (λ (j : Key).
              IsHistory w j.0 (e ∷ events_of j past) (stepped e (current s key a.contract)))
            equal
            (step-IsHistory w e a.name a.id (events_of key past) (current s key a.contract) history
              a.named a.continued a.applies)

  Advanced-IsReplayed :
      (e : Json) (past : List Json) (s s' : Replayed)
      → Advanced w e s s'
      → IsReplayed w past s
      → IsReplayed w (e ∷ past) s'
  unfolding lookup_seen
  Advanced-IsReplayed e past s s' a all = record {
    seen_ids = λ i.
        rw (Advanced-seen w e s s' a) (ground (arith, Advanced-has_id e s s' a i, all.seen_ids i));
    at_key = Advanced-IsTraced e past s s' a all;
    ordered = rw (Advanced-streams w e s s' a) (
        insert-IsSorted (a.name, a.id) (stepped e (current s (a.name, a.id) a.contract)) s.streams
          all.ordered);
  }

  Repeated-IsReplayed :
      (e : Json) (past : List Json) (s s' : Replayed)
      → Repeated w e s s'
      → IsReplayed w past s
      → IsReplayed w (e ∷ past) s'
  unfolding events_of
  Repeated-IsReplayed e past s s' r all =
      let stands : any (has_id r.event_id) past ≡ true =
        ground (arith, all.seen_ids r.event_id, r.seen) in
      let again : is_repeated e past ≡ true = ground (arith, r.delivered) in
      rw r.kept (record {
        seen_ids = λ i. repeats i stands;
        at_key = λ k. rw again (all.at_key k);
        ordered = all.ordered;
      })
    where
      repeats :
          (i : String)
          → any (has_id r.event_id) past ≡ true
          → is_some (lookup_seen i s.seen) ≡ any (has_id i) (e ∷ past)
      repeats i stands = ground (
        arith,
        is_text-as_str (e ! "event_id") r.event_id i r.delivered,
        eq_iff r.event_id i,
        all.seen_ids i,
      )

  replay_events-IsReplayed :
      (es past : List Json) (s s' : Replayed)
      → IsReplayed w past s
      → replay_events w es s ≡ ok s'
      → IsReplayed w (latest_first es past) s'
  unfolding replay_events latest_first
  replay_events-IsReplayed [] past s s' all h = subst (IsReplayed w past) (ok-injective h) all
  replay_events-IsReplayed (e ∷ es) past s s' all h =
      let (t, first, rest) = >>=-eq-ok (replay_event w e s) _ h in
      let next : IsReplayed w (e ∷ past) t = elim (replay_event-Advanced w e s t first) [
        | inl r ↦ Repeated-IsReplayed e past s t r all
        | inr a ↦ Advanced-IsReplayed e past s t a all
      ] in
      replay_events-IsReplayed es (e ∷ past) t s' next rest

  nothing_replayed-IsReplayed : IsReplayed w [] nothing_replayed
  unfolding find lookup_seen events_of
  nothing_replayed-IsReplayed = record { seen_ids = λ i. refl; at_key = λ k. refl; ordered = tt }

-- Whatever the log, an accepted replay answers with the rows of streams, one for each object, in
-- the order of their keys. An object has one just where the log holds an event of it, and its
-- sequence and its version then are both the number of the object's events, those that repeat the
-- id of an earlier event left out; in the order of the log, these events lead by edges of the
-- object's table from its initial state to that of the stream, numbered from one without a gap,
-- each at the version that counts the events before it and each applied by the transition.
pub replay-IsReplayed :
    (w : External) (events : List Json) (answer : Json)
    → replay w events ≡ ok answer
    → (s : Replayed) × (replay_events w events nothing_replayed ≡ ok s)
      × (answer ≡ array (of_list (stream_rows s.streams)))
      × IsReplayed w (latest_first events []) s
unfolding replay
replay-IsReplayed w events answer h =
    let (s, replayed, same) = >>=-eq-ok (replay_events w events nothing_replayed) _ h in
    (
      s,
      replayed,
      sym (ok-injective same),
      replay_events-IsReplayed w events [] nothing_replayed s (nothing_replayed-IsReplayed w)
          replayed,
    )
