-- ===== src/Tunnel/Supervisor/Resets.antt =====
-- What `step` of kernel/src/tunnel_supervisor.rs does to the count of launches.
use clinx.Prelude.{
  ℕ, String, Bool, true, false, ◌≡◌, refl, sym, ◌∙◌, ap, subst, ◌⊎◌, inl, inr, arith, ◌==◌,
  Bool-cases, Option-cases, if◌then◌else◌,
}
use clinx.Prelude.Results.{ok, >>=-eq-ok, ok-injective}
use clinx.Json.{Json, null, number, pos_int}
use clinx.Json.Access.{◌!◌, is_true, is_null}
use clinx.Json.Write.{set_member, set_member-ne, set_member-eq}
use clinx.External.{External}
use clinx.ExecutionCore.Evidence.{as_f64}
use clinx.Tunnel.Supervisor.{
  Tunnel, policy, Stepped, number_in, float_value, is_fresh_poll, is_stable, elapsed, advances,
  set_if_null, recovered, step_healthy, must_recover, step_failing, step_by, set_back, step,
}

if_true : (b : Bool) (m : Tunnel Bool) → (if b then m else ok false) ≡ ok true → m ≡ ok true
if_true true m h = h
if_true false m h = cc

module _ (w : External) where
  -- What a step shows that sets the count of launches back: the child runs, its poll is fresh and
  -- is later than the poll that the tunnel was first seen healthy with, in an earlier step.
  pub record IsReset (a : Json) : Type 0 where
    pub fresh : is_fresh_poll w a ≡ ok true
    pub running : is_true (a ! "exited") ≡ false
    pub last : ℕ
    pub start : ℕ
    pub its_last : number_in w (a ! "sample" ! "last_poll") ≡ ok last
    pub its_start : number_in w (a ! "timing" ! "healthy_start_poll") ≡ ok start
    pub advances : w.float_lt start last ≡ true

  is_stable-advances :
      (a timing : Json) (now : ℕ)
      → is_stable w a now timing ≡ ok true
      → (last : ℕ) × (start : ℕ) × (number_in w (a ! "sample" ! "last_poll") ≡ ok last)
        × (number_in w (timing ! "healthy_start_poll") ≡ ok start)
        × (w.float_lt start last ≡ true)
  unfolding is_stable advances
  is_stable-advances a timing now h =
      let (since, _, h₁) = >>=-eq-ok (number_in w (timing ! "healthy_since")) _ h in
      let (stable_for, _, h₂) = >>=-eq-ok (number_in w (a ! "policy" ! "stable_for")) _ h₁ in
      let h₃ = if_true (elapsed w now since stable_for) (advances w a timing) h₂ in
      let (last, its_last, h₄) = >>=-eq-ok (number_in w (a ! "sample" ! "last_poll")) _ h₃ in
      let (start, its_start, h₅) = >>=-eq-ok (number_in w (timing ! "healthy_start_poll")) _ h₄ in
      (last, start, its_last, its_start, ok-injective h₅)

  set_if_null-member :
      (k j : String) (v t u : Json) → set_if_null w k v t ≡ ok u → (k == j) ≡ false → u ! j ≡ t ! j
  set_if_null-member k j v t u h other = elim (Bool-cases (is_null (t ! k))) [
    | inl unset ↦ set_member-ne k j v t u other (ground arith)
    | inr is_set ↦ ground arith
  ]

  set_if_null-cases :
      (k : String) (v t u : Json) → set_if_null w k v t ≡ ok u → (u ! k ≡ v) ⊎ (u ≡ t)
  set_if_null-cases k v t u h = elim (Bool-cases (is_null (t ! k))) [
    | inl unset ↦ inl (set_member-eq k v t u (ground arith))
    | inr is_set ↦ inr (ground arith)
  ]

  recovered-launches :
      (timing state t : Json) (now : ℕ)
      → recovered w timing now state ≡ ok t
      → t ! "launches" ≡ state ! "launches"
  recovered-launches timing state t now h =
      elim (Option-cases (as_f64 w (timing ! "failure_started"))) [
        | inl absent ↦ ap (λ x. x ! "launches") (ground arith)
        | inr (since, found) ↦
            set_member-ne "recovery_seconds" "launches" (float_value w (w.float_sub now since))
              state t refl (ground arith)
      ]

  set_back-launches :
      (stable : Bool) (state t : Json)
      → set_back w stable state ≡ ok t
      → ((stable ≡ true) × (t ! "launches" ≡ number (pos_int 1))) ⊎ (t ≡ state)
  set_back-launches true state t h =
      inl (refl, set_member-eq "launches" (number (pos_int 1)) state t h)
  set_back-launches false state t h = inr (sym (ok-injective h))

  step_failing-state :
      (a : Json) (exited : Bool) (now : ℕ) (r : Stepped)
      → step_failing w a exited now ≡ ok r
      → r.state ≡ a ! "state"
  unfolding step_failing
  step_failing-state a exited now r h =
      let (unhealthy, _, h₁) = >>=-eq-ok (set_member "healthy_since" null (a ! "timing")) _ h in
      let (unstarted, _, h₂) = >>=-eq-ok (set_member "healthy_start_poll" null unhealthy) _ h₁ in
      let (timing, _, h₃) =
        >>=-eq-ok (set_if_null w "failure_started" (float_value w now) unstarted) _ h₂ in
      let (recover, _, h₄) = >>=-eq-ok (must_recover w a exited now timing) _ h₃ in
      sym (ap (λ x. x.state) (ok-injective h₄))

  module _ (irreflexive : (x : ℕ) → w.float_lt x x ≡ false) where
    is_stable-IsReset :
        (a since timing : Json) (now : ℕ)
        → set_if_null w "healthy_since" (float_value w now) (a ! "timing") ≡ ok since
        → set_if_null w "healthy_start_poll" (a ! "sample" ! "last_poll") since ≡ ok timing
        → is_stable w a now timing ≡ ok true
        → is_fresh_poll w a ≡ ok true
        → is_true (a ! "exited") ≡ false
        → IsReset a
    is_stable-IsReset a since timing now first second stable fresh running =
        let (last, start, its_last, its_start, later) = is_stable-advances a timing now stable in
        elim (set_if_null-cases "healthy_start_poll" (a ! "sample" ! "last_poll") since timing
          second) [
            | inl same ↦
                let equal = ok-injective (sym its_start ∙ ap (number_in w) same ∙ its_last) in
                absurd (ground (arith, ap (λ x. w.float_lt x last) equal, irreflexive last))
            | inr same ↦ record {
              fresh = fresh;
              running = running;
              last = last;
              start = start;
              its_last = its_last;
              its_start =
                  ap (number_in w) (
                    sym (
                      set_if_null-member "healthy_since" "healthy_start_poll" (float_value w now)
                        (a ! "timing") since first refl)
                    ∙ ap (λ x. x ! "healthy_start_poll") (sym same))
                  ∙ its_start;
              advances = later;
            }
          ]

    step_healthy-launches :
        (a : Json) (now : ℕ) (r : Stepped)
        → step_healthy w a now ≡ ok r
        → is_fresh_poll w a ≡ ok true
        → is_true (a ! "exited") ≡ false
        → ((r.state ! "launches" ≡ number (pos_int 1)) × IsReset a)
          ⊎ (r.state ! "launches" ≡ a ! "state" ! "launches")
    unfolding step_healthy
    step_healthy-launches a now r h fresh running =
        let (since, first, h₁) =
          >>=-eq-ok (set_if_null w "healthy_since" (float_value w now) (a ! "timing")) _ h in
        let (timing, second, h₂) =
          >>=-eq-ok (set_if_null w "healthy_start_poll" (a ! "sample" ! "last_poll") since) _ h₁ in
        let (stable, its_stable, h₃) = >>=-eq-ok (is_stable w a now timing) _ h₂ in
        let (reset, its_reset, h₄) = >>=-eq-ok (set_back w stable (a ! "state")) _ h₃ in
        let (state, its_state, h₅) = >>=-eq-ok (recovered w timing now reset) _ h₄ in
        let (cleared, _, h₆) = >>=-eq-ok (set_member "failure_started" null timing) _ h₅ in
        let kept =
          sym (ap (λ x. x.state ! "launches") (ok-injective h₆))
          ∙ recovered-launches timing reset state now its_state in
        elim (set_back-launches stable (a ! "state") reset its_reset) [
          | inl (resets, one) ↦ inl (
            kept ∙ one,
            is_stable-IsReset a since timing now first second
                (subst (λ b. is_stable w a now timing ≡ ok b) resets its_stable) fresh running,
          )
          | inr same ↦ inr (kept ∙ ap (λ x. x ! "launches") same)
        ]

    step_by-launches :
        (a : Json) (now : ℕ) (fresh : Bool) (r : Stepped)
        → step_by w a now fresh ≡ ok r
        → is_fresh_poll w a ≡ ok fresh
        → ((r.state ! "launches" ≡ number (pos_int 1)) × IsReset a)
          ⊎ (r.state ! "launches" ≡ a ! "state" ! "launches")
    unfolding step_by
    step_by-launches a now false r h fresh =
        inr (ap (λ x. x ! "launches") (step_failing-state a (is_true (a ! "exited")) now r h))
    step_by-launches a now true r h fresh = elim (Bool-cases (is_true (a ! "exited"))) [
      | inl exited ↦ inr (
          ap (λ x. x ! "launches")
            (step_failing-state a (is_true (a ! "exited")) now r (ground arith)))
      | inr running ↦ step_healthy-launches a now r (ground arith) fresh running
    ]

    -- Where no float is less than itself, a step leaves the count of launches, or sets it to one;
    -- the latter only if the child has not exited and its fresh poll is later than the one that
    -- the tunnel was seen healthy with in an earlier step.
    pub step-launches :
        (a : Json) (r : Stepped)
        → step w a ≡ ok r
        → ((r.state ! "launches" ≡ number (pos_int 1)) × IsReset a)
          ⊎ (r.state ! "launches" ≡ a ! "state" ! "launches")
    unfolding step step_by
    step-launches a r h =
        let (_, _, h₁) = >>=-eq-ok (policy w (a ! "policy")) _ h in
        let (now, _, h₂) = >>=-eq-ok (number_in w (a ! "now")) _ h₁ in
        let (fresh, its_fresh, h₃) = >>=-eq-ok (is_fresh_poll w a) _ h₂ in
        step_by-launches a now fresh r h₃ its_fresh
