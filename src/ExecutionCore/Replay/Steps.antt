-- ===== src/ExecutionCore/Replay/Steps.antt =====
-- One event of a `replay` of execution_core.rs that goes on: what it changes.
use clinx.Prelude.{
  String, ◌≡◌, refl, sym, ◌⊎◌, inl, inr, true, false, none, some, ◌∷◌, arith, any, unwrap_or,
  Bool-cases, Option-cases,
}
use clinx.Prelude.Int.{pos}
use clinx.Prelude.Results.{ok, >>=-eq-ok, ok-injective}
use clinx.Prelude.Maps.{Key, same_key, find, insert}
use clinx.Json.{Json}
use clinx.Json.Access.{◌!◌, as_str}
use clinx.External.{External}
use clinx.ExecutionCore.{Verdict, apply, reject, hold_unknown, duplicate}
use clinx.ExecutionCore.Contract.{ObjectContract, contract_object}
use clinx.ExecutionCore.Transition.{transition}
use clinx.ExecutionCore.Replay.{
  Stream, Replayed, stepped, initial_state, continues, bind, advance, applied, event_ids,
  replay_payload, replay_new, replay_event, lookup_seen,
}

-- The stream of a key, or the one that has had no event.
abbrev pub current : Replayed → Key → ObjectContract → Stream
current s key obj =
    unwrap_or (find key s.streams)
      (record { seq = 0; version = pos 0; state = initial_state key.0 obj })

applied-ok : (v : Verdict) → applied v ≡ ok tt → v ≡ apply
applied-ok apply h = refl
applied-ok reject h = cc
applied-ok hold_unknown h = cc
applied-ok duplicate h = cc

module _ (w : External) where
  pub record Advanced (e : Json) (s s' : Replayed) : Type 0 where
    pub name : String
    pub id : String
    pub contract : ObjectContract
    pub named : as_str (e ! "payload" ! "object") ≡ some name
    pub identified : as_str (e ! "payload" ! "id") ≡ some id
    pub known : contract_object name ≡ some contract
    pub new_ids : any (same_key (event_ids w e)) s.ids ≡ false
    pub continued : continues w e name id (current s (name, id) contract) ≡ true
    pub applies : transition w (e ! "payload") ≡ apply
    pub event_id : String
    pub delivered : as_str (e ! "event_id") ≡ some event_id
    pub unseen : lookup_seen event_id s.seen ≡ none
    pub bound :
        (b : Replayed) × (bind w
            (name, id)
            (e ! "payload" ! "facts" ! "binding")
            (record s { ids = event_ids w e ∷ s.ids })
          ≡ ok b)
        × (s' ≡ advance w (name, id) e event_id (current s (name, id) contract) b)

  Advanced-payload :
      (e : Json) (eid name id : String) (obj : ObjectContract) (s s' : Replayed)
      → as_str (e ! "event_id") ≡ some eid
      → lookup_seen eid s.seen ≡ none
      → as_str (e ! "payload" ! "object") ≡ some name
      → as_str (e ! "payload" ! "id") ≡ some id
      → contract_object name ≡ some obj
      → any (same_key (event_ids w e)) s.ids ≡ false
      → replay_payload w e eid name id obj (record s { ids = event_ids w e ∷ s.ids }) ≡ ok s'
      → Advanced e s s'
  unfolding replay_payload
  Advanced-payload e eid name id obj s s' delivered unseen named identified known new h =
      elim (Bool-cases (continues w e name id (current s (name, id) obj))) [
        | inr stops ↦ absurd (ground arith)
        | inl goes ↦
            let (_, applies, h₁) =
              >>=-eq-ok (applied (transition w (e ! "payload"))) _
                (rw (goes, replay_payload) at h) in
            let (b, bound, h₂) =
              >>=-eq-ok
                (bind w (name, id) (e ! "payload" ! "facts" ! "binding")
                  (record s { ids = event_ids w e ∷ s.ids }))
                _ h₁ in
            record {
              name = name;
              id = id;
              contract = obj;
              named = named;
              identified = identified;
              known = known;
              new_ids = new;
              continued = goes;
              applies = applied-ok _ (ground arith);
              event_id = eid;
              delivered = delivered;
              unseen = unseen;
              bound = (b, bound, sym (ok-injective h₂));
            }
      ]

  pub Advanced-new :
      (e : Json) (eid : String) (s s' : Replayed)
      → as_str (e ! "event_id") ≡ some eid
      → lookup_seen eid s.seen ≡ none
      → replay_new w e eid s ≡ ok s'
      → Advanced e s s'
  unfolding replay_new
  Advanced-new e eid s s' delivered unseen h =
      elim (Bool-cases (any (same_key (event_ids w e)) s.ids)) [
        | inl old ↦ absurd (ground arith)
        | inr new ↦ elim (Option-cases (as_str (e ! "payload" ! "object"))) [
          | inl missing ↦ absurd (ground arith)
          | inr (name, named) ↦ elim (Option-cases (as_str (e ! "payload" ! "id"))) [
            | inl missing ↦ absurd (ground arith)
            | inr (id, identified) ↦ elim (Option-cases (contract_object name)) [
              | inl missing ↦ absurd (ground arith)
              | inr (obj, known) ↦
                  Advanced-payload e eid name id obj s s' delivered unseen named identified known
                    new (ground arith)
            ]
          ]
        ]
      ]

  pub record Repeated (e : Json) (s s' : Replayed) : Type 0 where
    pub event_id : String
    pub prior : Json
    pub delivered : as_str (e ! "event_id") ≡ some event_id
    pub seen : lookup_seen event_id s.seen ≡ some prior
    pub kept : s' ≡ s

  -- An accepted event is a repetition, which changes nothing, or advances its stream.
  pub replay_event-Advanced :
      (e : Json) (s s' : Replayed) → replay_event w e s ≡ ok s' → Repeated e s s' ⊎ Advanced e s s'
  unfolding replay_event
  replay_event-Advanced e s s' h = elim (Option-cases (as_str (e ! "event_id"))) [
    | inl missing ↦ absurd (ground arith)
    | inr (eid, here) ↦ elim (Option-cases (lookup_seen eid s.seen)) [
      | inr (prior, seen) ↦ inl (record {
        event_id = eid;
        prior = prior;
        delivered = here;
        seen = seen;
        kept = ground arith;
      })
      | inl new ↦ inr (Advanced-new e eid s s' here new (ground arith))
    ]
  ]

  bind-seen : (k : Key) (b : Json) (s s' : Replayed) → bind w k b s ≡ ok s' → s'.seen ≡ s.seen
  unfolding bind
  bind-seen k b s s' h = ground arith

  pub Advanced-seen :
      (e : Json) (s s' : Replayed) (a : Advanced e s s') → s'.seen ≡ (a.event_id, e) ∷ s.seen
  unfolding advance
  Advanced-seen e s s' a =
      let (b, bound, same) = a.bound in
      ground (
        arith,
        bind-seen (a.name, a.id) (e ! "payload" ! "facts" ! "binding")
            (record s { ids = event_ids w e ∷ s.ids }) b bound,
      )

  bind-streams :
      (k : Key) (b : Json) (s s' : Replayed) → bind w k b s ≡ ok s' → s'.streams ≡ s.streams
  unfolding bind
  bind-streams k b s s' h = ground arith

  pub Advanced-streams :
      (e : Json) (s s' : Replayed) (a : Advanced e s s')
      → s'.streams
        ≡ insert (a.name, a.id) (stepped e (current s (a.name, a.id) a.contract)) s.streams
  unfolding advance
  Advanced-streams e s s' a =
      let (b, bound, same) = a.bound in
      ground (
        arith,
        bind-streams (a.name, a.id) (e ! "payload" ! "facts" ! "binding")
            (record s { ids = event_ids w e ∷ s.ids }) b bound,
      )
