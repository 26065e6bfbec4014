-- ===== src/ExecutionCore/Replay/Repeats.antt =====
-- Events that a log gives to `replay` of execution_core.rs a second time.
use clinx.Prelude.{
  String, ◌≡◌, refl, sym, inl, inr, true, some, List, [], ◌∷◌, ◌++◌, arith, ◌==◌, eq_iff, eq_refl,
  Option-cases, subst,
}
use clinx.Prelude.Results.{ok, ◌>>=◌, >>=-eq-ok, ok-injective, Result-cases}
use clinx.Json.{Json}
use clinx.Json.Access.{◌!◌, as_str, is_text}
use clinx.External.{External}
use clinx.ExecutionCore.Canonical.{canonical, digest}
use clinx.ExecutionCore.Replay.{
  Replayed, nothing_replayed, lookup_seen, well_enveloped, replay_event, replay_events, replay,
}
use clinx.ExecutionCore.Replay.Steps.{Advanced-seen, Advanced, Advanced-new, replay_event-Advanced}

module _ (w : External) where
  -- The event passes the checks on its envelope, and was seen with the same canonical text.
  record HasSeen (e : Json) (s : Replayed) : Type 0 where
    enveloped : well_enveloped e ≡ true
    hashed : is_text (e ! "payload_hash") (digest w (e ! "payload")) ≡ true
    event_id : String
    prior : Json
    delivered : as_str (e ! "event_id") ≡ some event_id
    found : lookup_seen event_id s.seen ≡ some prior
    same : (canonical w prior == canonical w e) ≡ true

  HasSeen-replay_event : (e : Json) (s : Replayed) → HasSeen e s → replay_event w e s ≡ ok s
  unfolding replay_event
  HasSeen-replay_event e s h = ground (arith, h.delivered, h.found)

  replay_event-enveloped :
      (e : Json) (s s' : Replayed)
      → replay_event w e s ≡ ok s'
      → (well_enveloped e ≡ true) × (is_text (e ! "payload_hash") (digest w (e ! "payload")) ≡ true)
  unfolding replay_event
  replay_event-enveloped e s s' h = (ground arith, ground arith)

  Advanced-HasSeen :
      (e : Json) (s s' : Replayed) → replay_event w e s ≡ ok s' → Advanced w e s s' → HasSeen e s'
  unfolding lookup_seen
  Advanced-HasSeen e s s' h a =
      let (enveloped, hashed) = replay_event-enveloped e s s' h in
      record {
        enveloped = enveloped;
        hashed = hashed;
        event_id = a.event_id;
        prior = e;
        delivered = a.delivered;
        found = rw (Advanced-seen w e s s' a, eq_refl a.event_id);
        same = eq_refl (canonical w e);
      }

  -- Events that follow leave what was seen in place.
  HasSeen-Advanced : (e x : Json) (s s' : Replayed) → HasSeen e s → Advanced w x s s' → HasSeen e s'
  unfolding lookup_seen
  HasSeen-Advanced e x s s' h a = record {
    enveloped = h.enveloped;
    hashed = h.hashed;
    event_id = h.event_id;
    prior = h.prior;
    delivered = h.delivered;
    found =
        rw (Advanced-seen w x s s' a)
          (ground (arith, h.found, a.unseen, eq_iff a.event_id h.event_id));
    same = h.same;
  }

  replay_event-HasSeen : (e : Json) (s s' : Replayed) → replay_event w e s ≡ ok s' → HasSeen e s'
  unfolding replay_event
  replay_event-HasSeen e s s' h = elim (Option-cases (as_str (e ! "event_id"))) [
    | inl missing ↦ absurd (ground arith)
    | inr (eid, here) ↦ elim (Option-cases (lookup_seen eid s.seen)) [
      | inr (prior, seen) ↦
          let (enveloped, hashed) = replay_event-enveloped e s s' h in
          let unchanged : s ≡ s' = ground arith in
          subst (HasSeen e) unchanged (record {
            enveloped = enveloped;
            hashed = hashed;
            event_id = eid;
            prior = prior;
            delivered = here;
            found = seen;
            same = ground arith;
          })
      | inl new ↦ Advanced-HasSeen e s s' h (Advanced-new w e eid s s' here new (ground arith))
    ]
  ]

  HasSeen-replay_events :
      (e : Json) (xs : List Json) (s s' : Replayed)
      → HasSeen e s
      → replay_events w xs s ≡ ok s'
      → HasSeen e s'
  unfolding replay_events
  HasSeen-replay_events e [] s s' h run = subst (HasSeen e) (ok-injective run) h
  HasSeen-replay_events e (x ∷ xs) s s' h run =
      let (t, first, rest) = >>=-eq-ok (replay_event w x s) _ run in
      elim (replay_event-Advanced w x s t first) [
        | inl repeated ↦
            HasSeen-replay_events e xs t s' (subst (HasSeen e) (sym repeated.kept) h) rest
        | inr a ↦ HasSeen-replay_events e xs t s' (HasSeen-Advanced e x s t h a) rest
      ]

  replay_events-append :
      (xs ys : List Json) (s : Replayed)
      → replay_events w (xs ++ ys) s ≡ (replay_events w xs s >>= λ t. replay_events w ys t)
  unfolding replay_events
  replay_events-append [] ys s = refl
  replay_events-append (x ∷ xs) ys s = elim (Result-cases (replay_event w x s)) [
    | inl (t, first) ↦ rw first (replay_events-append xs ys t)
    | inr (v, first) ↦ rw first
  ]

  -- After an accepted event and the events `ys`, the event once more makes no difference.
  redelivered :
      (e : Json) (ys zs : List Json) (s : Replayed)
      → replay_events w (e ∷ (ys ++ e ∷ zs)) s ≡ replay_events w (e ∷ (ys ++ zs)) s
  unfolding replay_events
  redelivered e ys zs s = elim (Result-cases (replay_event w e s)) [
    | inr (v, first) ↦ rw first
    | inl (t, first) ↦ rw first (
        rw (replay_events-append ys (e ∷ zs) t) (
          rw (replay_events-append ys zs t) (elim (Result-cases (replay_events w ys t)) [
            | inr (v, stops) ↦ rw stops
            | inl (u, goes) ↦ rw goes (
                rw (
                  HasSeen-replay_event e u
                    (HasSeen-replay_events e ys t u (replay_event-HasSeen e s t first) goes)))
          ])))
  ]

  redelivered_log :
      (e : Json) (xs ys zs : List Json) (s : Replayed)
      → replay_events w (xs ++ (e ∷ (ys ++ e ∷ zs))) s ≡ replay_events w (xs ++ (e ∷ (ys ++ zs))) s
  unfolding replay_events
  redelivered_log e [] ys zs s = redelivered e ys zs s
  redelivered_log e (x ∷ xs) ys zs s = elim (Result-cases (replay_event w x s)) [
    | inl (t, first) ↦ rw first (redelivered_log e xs ys zs t)
    | inr (v, first) ↦ rw first
  ]

-- An event that a log repeats later changes nothing: the replay of the log answers as that of the
-- log without the repetition, whether it accepts or rejects.
pub replay-redelivered :
    (w : External) (xs ys zs : List Json) (e : Json)
    → replay w (xs ++ (e ∷ (ys ++ e ∷ zs))) ≡ replay w (xs ++ (e ∷ (ys ++ zs)))
unfolding replay
replay-redelivered w xs ys zs e = rw (redelivered_log w e xs ys zs nothing_replayed)
