-- ===== src/Tunnel/Supervisor/Launches.antt =====
-- What "tunnel.launch" of kernel/src/tunnel_supervisor.rs decides, and leaves of the count.
use clinx.Prelude.{
  ℕ, suc, ◌≤◌, ◌<◌, String, Bool, true, false, Option, none, some, ◌≡◌, refl, sym, ◌∙◌, ap, subst,
  ◌⊎◌, inl, inr, arith, ltb, unwrap_or, if◌then◌else◌,
}
use clinx.Prelude.Results.{ok, err, ◌>>=◌, >>=-eq-ok, ok-injective}
use clinx.Json.{Json, number, pos_int}
use clinx.Json.Access.{◌!◌, as_u64}
use clinx.Json.Write.{set_member, set_member-ne, set_member-eq}
use clinx.External.{External}
use clinx.Tunnel.Supervisor.{Tunnel, policy, launched, launch, launch_within, next_u64, option_err}

launched-launches :
    (state t : Json) (n : ℕ) → launched state n ≡ ok t → t ! "launches" ≡ number (pos_int (suc n))
unfolding launched
launched-launches state t n h =
    let (counted, first, h₁) =
      >>=-eq-ok (set_member "launches" (number (pos_int (suc n))) state) _ h in
    let (sequence, _, second) =
      >>=-eq-ok
        (next_u64 "STATE_IDENTITY_OR_BUDGET_INVALID"
          (unwrap_or (as_u64 (counted ! "launch_sequence")) 0))
        _ h₁ in
    set_member-ne "launch_sequence" "launches" (number (pos_int sequence)) counted t refl second
    ∙ set_member-eq "launches" (number (pos_int (suc n))) state counted first

-- What a launch is decided on, and what it leaves of the count.
pub record IsLaunch (a t : Json) (allowed : Bool) : Type 0 where
  pub count : ℕ
  pub restarts : ℕ
  pub counted : as_u64 (a ! "state" ! "launches") ≡ some count
  pub limited : as_u64 (a ! "policy" ! "max_restarts") ≡ some restarts
  pub outcome :
      ((allowed ≡ true) × (count ≤ restarts) × (t ! "launches" ≡ number (pos_int (suc count))))
      ⊎ ((allowed ≡ false) × (restarts < count) × (t ≡ a ! "state"))

option_err-eq-ok :
    {A : Type 0} (e : String) (o : Option A) (a : A) → option_err e o ≡ ok a → o ≡ some a
option_err-eq-ok e none a h = cc
option_err-eq-ok e (some b) a h = ap some (ok-injective h)

next_u64-eq-ok : (e : String) (n m : ℕ) → next_u64 e n ≡ ok m → m ≡ suc n
next_u64-eq-ok e n m h = ground arith

branches :
    (b : Bool) (m : Tunnel Json) (state t : Json) (allowed : Bool)
    → (if b then ◌>>=◌ {B = Bool × Json} m (λ next. ok (true, next)) else ok (false, state))
      ≡ ok (allowed, t)
    → ((b ≡ true) × (allowed ≡ true) × (m ≡ ok t)) ⊎ ((b ≡ false) × (allowed ≡ false) × (t ≡ state))
branches true (ok next) state t allowed h =
    let both = ok-injective {E = String} h in
    inl (refl, sym (ap (λ x. x.0) both), ap (λ x. ok (x.1)) both)
branches true (err e) state t allowed h = cc
branches false m state t allowed h =
    let both = ok-injective {E = String} h in
    inr (refl, sym (ap (λ x. x.0) both), sym (ap (λ x. x.1) both))

launch_within-outcome :
    (state t : Json) (n r : ℕ) (allowed : Bool)
    → launch_within state n (suc r) ≡ ok (allowed, t)
    → ((allowed ≡ true) × (n ≤ r) × (t ! "launches" ≡ number (pos_int (suc n))))
      ⊎ ((allowed ≡ false) × (r < n) × (t ≡ state))
unfolding launch_within
launch_within-outcome state t n r allowed h =
    elim (branches (ltb n (suc r)) (launched state n) state t allowed h) [
      | inl (within, allows, made) ↦
          inl (allows, ground (arith, within), launched-launches state t n made)
      | inr (spent, refuses, same) ↦ inr (refuses, ground (arith, spent), same)
    ]

module _ (w : External) where
  pub launch-IsLaunch :
      (a t : Json) (allowed : Bool) → launch w a ≡ ok (allowed, t) → IsLaunch a t allowed
  unfolding launch
  launch-IsLaunch a t allowed h =
      let (_, _, h₁) = >>=-eq-ok (policy w (a ! "policy")) _ h in
      let (n, counted, h₂) =
        >>=-eq-ok
          (option_err "STATE_IDENTITY_OR_BUDGET_INVALID" (as_u64 (a ! "state" ! "launches"))) _
          h₁ in
      let (r, limited, h₃) =
        >>=-eq-ok (option_err "PANIC" (as_u64 (a ! "policy" ! "max_restarts"))) _ h₂ in
      let (limit, next, h₄) = >>=-eq-ok (next_u64 "INVALID_RESTART_LIMIT" r) _ h₃ in
      record {
        count = n;
        restarts = r;
        counted = option_err-eq-ok _ _ n counted;
        limited = option_err-eq-ok _ _ r limited;
        outcome = launch_within-outcome (a ! "state") t n r allowed (
            subst (λ l. launch_within (a ! "state") n l ≡ ok (allowed, t))
              (next_u64-eq-ok "INVALID_RESTART_LIMIT" r limit next) h₄);
      }
