-- ===== src/ExecutionCore/Guards/Leases.antt =====
-- The guards on a lease: "fence", "expired", "retry", and the two observations of a provider.
use clinx.Prelude.{
  ℕ, String, ◌≡◌, refl, ◌⊎◌, inl, inr, true, false, some, arith, ◌==◌, Option-cases,
}
use clinx.Json.{Json, string}
use clinx.Json.Access.{◌!◌, is_text, is_text_iff, is_false}
use clinx.External.{External}
use clinx.ExecutionCore.{apply, reject, hold_unknown}
use clinx.ExecutionCore.Evidence.{py_eq, num, identity, owner_names}
use clinx.ExecutionCore.Guards.{guard_fence, guard_expired, guard_provider, allocation_live}

-- What a fence that applies has established: the presented owner is the stored one, the versions
-- are the expected ones, and the lease of a live allocation has not run out.
pub record IsFenced (w : External) (f : Json) : Type 0 where
  pub owner : identity (f ! "stored_owner") owner_names ≡ true
  pub presented : py_eq w (f ! "presented_owner") (f ! "stored_owner") ≡ true
  pub settled : is_false (f ! "safety_pending") ≡ true
  pub versions : py_eq w (f ! "expected_versions") (f ! "stored_versions") ≡ true
  pub now : ℕ
  pub expires : ℕ
  pub now_read : num w (f ! "now") ≡ some now
  pub expires_read : num w (f ! "expires_at") ≡ some expires
  pub unexpired : w.float_lt now expires ≡ true
  pub allocation :
      (f ! "allocation_state" ≡ string "HELD") ⊎ (f ! "allocation_state" ≡ string "ACTIVE")
  pub assignment : f ! "assignment_state" ≡ string "ACTIVE"

allocation_live-text :
    (v : Json) → allocation_live v ≡ true → (v ≡ string "HELD") ⊎ (v ≡ string "ACTIVE")
unfolding allocation_live
allocation_live-text v h = ground (arith, is_text_iff v "HELD", is_text_iff v "ACTIVE")

text_differs :
    (v : Json) (s t : String) → (s == t) ≡ false → is_text v s ≡ true → is_text v t ≡ false
unfolding is_text
text_differs v s t ne h = rw (is_text_iff v s h) (string_differs s t ne)
  where
    string_differs : (a b : String) → (a == b) ≡ false → is_text (string a) b ≡ false
    string_differs a b e = e

module _ (w : External) (f : Json) where
  -- Where the guard "fence" applies, the presented owner is the stored one, the safety handoff is
  -- settled, the versions are the expected ones, the lease has not expired, and the allocation and
  -- the assignment are live.
  pub guard_fence-IsFenced : guard_fence w f ≡ apply → IsFenced w f
  unfolding guard_fence
  guard_fence-IsFenced h = elim (Option-cases (num w (f ! "now"))) [
    | inl missing ↦ absurd (ground arith)
    | inr (now, read) ↦ elim (Option-cases (num w (f ! "expires_at"))) [
      | inl missing ↦ absurd (ground arith)
      | inr (expires, due) ↦ record {
        owner = ground arith;
        presented = ground arith;
        settled = ground arith;
        versions = ground arith;
        now = now;
        expires = expires;
        now_read = read;
        expires_read = due;
        unexpired = ground arith;
        allocation = allocation_live-text (f ! "allocation_state") (ground arith);
        assignment = is_text_iff _ _ (ground arith);
      }
    ]
  ]

  -- Where the order of floats excludes `b <= a` when `a < b`, no evidence passes both the fence
  -- and the guard "expired".
  pub fence_excludes_expired :
      ((a b : ℕ) → w.float_lt a b ≡ true → w.float_le b a ≡ false)
      → guard_fence w f ≡ apply
      → guard_expired w f ≡ reject
  unfolding guard_expired
  fence_excludes_expired exclude h =
      let fenced = guard_fence-IsFenced h in
      ground (
        arith,
        fenced.now_read,
        fenced.expires_read,
        exclude fenced.now fenced.expires fenced.unexpired,
      )

  -- No evidence shows a provider both live and terminal.
  pub provider_exclusive : guard_provider w false f ≡ apply → guard_provider w true f ≡ hold_unknown
  unfolding guard_provider
  provider_exclusive h =
      ground (arith, text_differs (f ! "observation" ! "liveness") "LIVE" "TERMINAL" refl)
