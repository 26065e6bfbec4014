-- ===== src/ExecutionCore/Guards/Grants.antt =====
-- The guards "grant" and "new_incarnation": the arithmetic of epochs, units and generations.
use clinx.Prelude.{
  ℕ, ◌+◌, ◌≤◌, ◌<◌, ◌≡◌, refl, true, false, ◌&&◌, Option, none, some, arith, inl, inr, is_some,
  Option-cases,
}
use clinx.Prelude.Int.{ℤ, pos, negsuc, i64_max, eqb_option, checked_add}
use clinx.Json.{Json}
use clinx.Json.Access.{◌!◌, as_i64, is_empty_array, is_true}
use clinx.Json.Equality.{json_eq}
use clinx.External.{External}
use clinx.ExecutionCore.{apply}
use clinx.ExecutionCore.Evidence.{text}
use clinx.ExecutionCore.Evidence.Identities.{owner_epoch}
use clinx.ExecutionCore.Guards.{guard_fence, grant_fits, guard_grant, guard_new_incarnation}

-- A granted allocation: one epoch on, within the capacity, with nothing unresolved, and fenced.
pub record IsGranted (w : External) (f : Json) : Type 0 where
  pub previous : ℕ
  pub used : ℕ
  pub asked : ℕ
  pub capacity : ℕ
  pub previous_read : as_i64 (f ! "previous_epoch") ≡ some (pos previous)
  pub used_read : as_i64 (f ! "used_units") ≡ some (pos used)
  pub asked_read : as_i64 (f ! "capacity_units") ≡ some (pos asked)
  pub capacity_read : as_i64 (f ! "capacity") ≡ some (pos capacity)
  pub epoch : as_i64 (f ! "presented_owner" ! "resource_epoch") ≡ some (pos (previous + 1))
  pub some_asked : 1 ≤ asked
  pub fits : used + asked ≤ capacity
  pub resolved : is_empty_array (f ! "unresolved_allocation_ids") ≡ true
  pub fenced : guard_fence w f ≡ apply

-- The four integers of a grant that fits.
record Fitting (f : Json) (p u n c : ℤ) : Type 0 where
  previous : ℕ
  used : ℕ
  asked : ℕ
  capacity : ℕ
  previous_eq : p ≡ pos previous
  used_eq : u ≡ pos used
  asked_eq : n ≡ pos asked
  capacity_eq : c ≡ pos capacity
  some_asked : 1 ≤ asked
  fits : used + asked ≤ capacity
  epoch : as_i64 (f ! "presented_owner" ! "resource_epoch") ≡ some (pos (previous + 1))
  resolved : is_empty_array (f ! "unresolved_allocation_ids") ≡ true

-- An epoch that equals a checked sum, which has a value where the epoch has one.
epoch_read :
    (p : ℕ) (o : Option ℤ)
    → (eqb_option (checked_add (pos p) (pos 1)) o && is_some o) ≡ true
    → o ≡ some (pos (p + 1))
epoch_read p o h = ground arith

grant_fits-Fitting :
    (w : External) (f : Json) (p u n c : ℤ)
    → is_some (as_i64 (f ! "presented_owner" ! "resource_epoch")) ≡ true
    → grant_fits w f p u n c ≡ true
    → Fitting f p u n c
unfolding grant_fits
grant_fits-Fitting w f (pos p) (pos u) (pos n) (pos c) i h = record {
  previous = p;
  used = u;
  asked = n;
  capacity = c;
  previous_eq = refl;
  used_eq = refl;
  asked_eq = refl;
  capacity_eq = refl;
  some_asked = ground arith;
  fits = ground arith;
  epoch = epoch_read p _ (ground arith);
  resolved = ground arith;
}
grant_fits-Fitting w f (negsuc p) u n c i h = absurd (ground arith)
grant_fits-Fitting w f (pos p) (negsuc u) n c i h = absurd (ground arith)
grant_fits-Fitting w f (pos p) (pos u) (negsuc n) c i h = absurd (ground arith)
grant_fits-Fitting w f (pos p) (pos u) (pos n) (negsuc c) i h = absurd (ground arith)

module _ (w : External) (f : Json) where
  -- Where the guard "grant" applies, the units used and asked for fit the capacity, at least one
  -- is asked for, the epoch is one more than the last, no allocation is unresolved, and the fence
  -- holds.
  pub guard_grant-IsGranted : guard_grant w f ≡ apply → IsGranted w f
  unfolding guard_grant
  guard_grant-IsGranted h = elim (Option-cases (as_i64 (f ! "previous_epoch"))) [
    | inl missing ↦ absurd (ground arith)
    | inr (p, hp) ↦ elim (Option-cases (as_i64 (f ! "used_units"))) [
      | inl missing ↦ absurd (ground arith)
      | inr (u, hu) ↦ elim (Option-cases (as_i64 (f ! "capacity_units"))) [
        | inl missing ↦ absurd (ground arith)
        | inr (n, hn) ↦ elim (Option-cases (as_i64 (f ! "capacity"))) [
          | inl missing ↦ absurd (ground arith)
          | inr (c, hc) ↦
              let t =
                grant_fits-Fitting w f p u n c (owner_epoch (f ! "presented_owner") (ground arith))
                  (ground arith) in
              record {
                previous = t.previous;
                used = t.used;
                asked = t.asked;
                capacity = t.capacity;
                previous_read = ground arith;
                used_read = ground arith;
                asked_read = ground arith;
                capacity_read = ground arith;
                epoch = t.epoch;
                some_asked = t.some_asked;
                fits = t.fits;
                resolved = t.resolved;
                fenced = ground arith;
              }
        ]
      ]
    ]
  ]

  -- Where the guard "new_incarnation" applies below the largest generation, the next generation is
  -- the previous one plus one, the incarnation is another, and the old assignments are
  -- quarantined.
  pub new_incarnation_advances :
      (p : ℕ)
      → as_i64 (f ! "previous_generation") ≡ some (pos p)
      → p < i64_max
      → guard_new_incarnation w f ≡ apply
      → (1 ≤ p)
        × (as_i64 (f ! "next_generation") ≡ some (pos (p + 1)))
        × (json_eq w (f ! "presented_incarnation") (f ! "previous_incarnation") ≡ false)
        × (is_true (f ! "old_assignments_quarantined") ≡ true)
  unfolding guard_new_incarnation
  new_incarnation_advances p read lt h = (ground arith, ground arith, ground arith, ground arith)

  -- At the largest generation the checked sum has no value, and the guard "new_incarnation"
  -- applies although the next generation is missing or no integer.
  pub new_incarnation_overflow :
      as_i64 (f ! "previous_generation") ≡ some (pos i64_max)
      → as_i64 (f ! "next_generation") ≡ none
      → text (f ! "presented_incarnation") ≡ true
      → json_eq w (f ! "presented_incarnation") (f ! "previous_incarnation") ≡ false
      → is_true (f ! "old_assignments_quarantined") ≡ true
      → guard_new_incarnation w f ≡ apply
  unfolding guard_new_incarnation
  new_incarnation_overflow p n t d q = ground arith
