-- ===== src/ExecutionCore/Replay/Generations.antt =====
-- The generations that `replay` of execution_core.rs binds its streams at.
use clinx.Prelude.{
  ◌≡◌, sym, ap, inl, inr, true, false, some, List, [], ◌∷◌, arith, eq_iff, Bool-cases, Option-cases,
  is_some_and,
}
use clinx.Prelude.Int.{ℤ, ltb_ℤ, leb_ℤ}
use clinx.Prelude.Maps.{Key, same_key, find, insert, find-insert}
use clinx.Prelude.Results.{ok, >>=-eq-ok, ok-injective}
use clinx.Json.{Json}
use clinx.Json.Access.{◌!◌, as_i64}
use clinx.External.{External}
use clinx.ExecutionCore.Evidence.{truth}
use clinx.ExecutionCore.Replay.{Replayed, bind, advance, event_ids, replay_event, replay_events}
use clinx.ExecutionCore.Replay.Steps.{Advanced, replay_event-Advanced}

-- Every stream that `s` has bound at a generation is bound by `s'` at one that is no older.
pub record Grows (s s' : Replayed) : Type 0 where
  pub at_key :
      (k : Key) (g : ℤ)
      → find k s.generations ≡ some g
      → (g' : ℤ) × (find k s'.generations ≡ some g') × (leb_ℤ g g' ≡ true)

leb_ℤ-refl : (g : ℤ) → leb_ℤ g g ≡ true
leb_ℤ-refl g = ground arith

leb_ℤ-trans : (a b c : ℤ) → leb_ℤ a b ≡ true → leb_ℤ b c ≡ true → leb_ℤ a c ≡ true
leb_ℤ-trans a b c h k = ground arith

leb_of_not_ltb : (g old : ℤ) → ltb_ℤ g old ≡ false → leb_ℤ old g ≡ true
leb_of_not_ltb g old h = ground arith

Grows-refl : (s s' : Replayed) → s'.generations ≡ s.generations → Grows s s'
Grows-refl s s' same = record { at_key = λ k g h. (g, rw same h, leb_ℤ-refl g) }

Grows-trans : (s t u : Replayed) → Grows s t → Grows t u → Grows s u
Grows-trans s t u a b = record {
  at_key = λ k g h.
      let (g₁, h₁, le₁) = a.at_key k g h in
      let (g₂, h₂, le₂) = b.at_key k g₁ h₁ in (g₂, h₂, leb_ℤ-trans g g₁ g₂ le₁ le₂);
}

module _ (w : External) where
  -- What `bind` has done: nothing to the generations, or the key's is the new binding's.
  record Rebound (k : Key) (b : Json) (s s' : Replayed) : Type 0 where
    generation : ℤ
    read : as_i64 (b ! "generation") ≡ some generation
    newer : is_some_and (find k s.generations) (λ old. ltb_ℤ generation old) ≡ false
    written : s'.generations ≡ insert k generation s.generations

  Rebound-Grows : (k : Key) (b : Json) (s s' : Replayed) → Rebound k b s s' → Grows s s'
  Rebound-Grows k b s s' r = record {
    at_key = λ j g h. elim (Bool-cases (same_key k j)) [
      | inr other ↦
          (g, ground (arith, r.written, find-insert k j r.generation s.generations), leb_ℤ-refl g)
      | inl same ↦ (
        r.generation,
        ground (arith, r.written, find-insert k j r.generation s.generations),
        leb_of_not_ltb r.generation g (ground (arith, r.newer, eq_iff k.0 j.0, eq_iff k.1 j.1)),
      )
    ];
  }

  bind-Grows : (k : Key) (b : Json) (s s' : Replayed) → bind w k b s ≡ ok s' → Grows s s'
  unfolding bind
  bind-Grows k b s s' h = elim (Bool-cases (truth w b)) [
    | inr unbound ↦ Grows-refl s s' (ground arith)
    | inl bound ↦ elim (Option-cases (as_i64 (b ! "generation"))) [
      | inl missing ↦ absurd (ground arith)
      | inr (g, read) ↦
          Rebound-Grows k b s s'
            (record { generation = g; read = read; newer = ground arith; written = ground arith })
    ]
  ]

  Advanced-Grows : (e : Json) (s s' : Replayed) → Advanced w e s s' → Grows s s'
  unfolding advance
  Advanced-Grows e s s' a =
      let (b, bound, same) = a.bound in
      let t : Replayed = record s { ids = event_ids w e ∷ s.ids } in
      let grown : Grows t b =
        bind-Grows (a.name, a.id) (e ! "payload" ! "facts" ! "binding") t b bound in
      record {
        at_key = λ k g h. let (g', found, le) = grown.at_key k g h in (g', rw same found, le);
      }

  -- No accepted events lower the generation that a stream is bound to.
  pub replay_events-Grows :
      (es : List Json) (s s' : Replayed) → replay_events w es s ≡ ok s' → Grows s s'
  unfolding replay_events
  replay_events-Grows [] s s' h = Grows-refl s s' (ap (λ t. t.generations) (sym (ok-injective h)))
  replay_events-Grows (e ∷ es) s s' h =
      let (t, first, rest) = >>=-eq-ok (replay_event w e s) _ h in
      Grows-trans s t s'
        (elim (replay_event-Advanced w e s t first) [
          | inl repeated ↦ Grows-refl s t (ap (λ x. x.generations) repeated.kept)
          | inr a ↦ Advanced-Grows e s t a
        ])
        (replay_events-Grows es t s' rest)
