-- ===== src/Kernel/Assignment/State/Laws.antt =====
-- The state that `validate_assignment_state` of kernel/src/lib.rs answers with: its identity, its
-- version and its lifecycle, against the event and the state before it.
use clinx.Prelude.{
  ℕ, ◌+◌, String, ◌≡◌, sym, ◌∙◌, ap, subst, Bool, true, Option, none, some, List, inl, inr, eq_iff,
  arith, unwrap_or, Option-cases, &&-eq-true, eqb_iff,
}
use clinx.Prelude.Results.{ok, Result-cases, >>=-eq-ok, ensure, ensure-eq-ok, ok-injective}
use clinx.Json.{Json, null, number, string, pos_int, Fields}
use clinx.Json.Access.{lookup, insert, get?, as_str, as_u64, is_text_iff}
use clinx.External.{External}
use clinx.Kernel.Required.{path_value, follow}
use clinx.Kernel.Assignment.{RuntimeEvent, event_lifecycle, value_text, value_integer}
use clinx.Kernel.Assignment.State.{
  assignment_fields, allocation_fields, attempt_fields, complete, Parts, is_legacy, parts_of,
  Versions, versions_of,
}
use clinx.Kernel.Assignment.State.Checks.{
  identities_fit, lifecycles_fit, leases_fit, recovery_fits, keeps_identity, versions_advance,
  history_fits, checked_parts, continues, starts, old_version,
}
use clinx.Kernel.Assignment.State.Clean.{pick, clean, raw_state, validate_assignment_state}

pub value_text-ok :
    (m : Fields) (k : String) {s : String} → value_text m k ≡ ok s → lookup k m ≡ some (string s)
unfolding value_text as_str
value_text-ok m k {s} h = elim (Option-cases (lookup k m)) [
  | inl absent ↦ ground arith
  | inr (string t, found) ↦ ground arith
  | inr (_, found) ↦ ground arith
]

pub value_integer-ok :
    (m : Fields) (k : String) {n : ℕ}
    → value_integer m k ≡ ok n
    → lookup k m ≡ some (number (pos_int n))
unfolding value_integer as_u64
value_integer-ok m k {n} h = elim (Option-cases (lookup k m)) [
  | inl absent ↦ ground arith
  | inr (number (pos_int j), found) ↦ ground arith
  | inr (number _, found) ↦ ground arith
  | inr (_, found) ↦ ground arith
]

-- The members of a cleaned assignment.
module _ (p : Parts) {v : Json} where
  clean-version :
      lookup "version" p.assignment ≡ some v → path_value (clean p) "assignment.version" ≡ some v
  unfolding clean pick path_value follow get? lookup insert
  clean-version h = ap (λ o. some (unwrap_or o null)) h

  clean-id :
      lookup "assignment_id" p.assignment ≡ some v
      → path_value (clean p) "assignment.assignment_id" ≡ some v
  unfolding clean pick path_value follow get? lookup insert
  clean-id h = ap (λ o. some (unwrap_or o null)) h

  clean-lifecycle :
      lookup "lifecycle" p.assignment ≡ some v
      → path_value (clean p) "assignment.lifecycle" ≡ some v
  unfolding clean pick path_value follow get? lookup insert
  clean-lifecycle h = ap (λ o. some (unwrap_or o null)) h

-- The version is 0 in the first state, and one more than before in every other.
abbrev pub IsCounted : Option Json → ℕ → Type 0
IsCounted none n = n ≡ 0
IsCounted (some previous) n =
    (m : ℕ) → path_value previous "assignment.version" ≡ some (number (pos_int m)) → n ≡ m + 1

-- The state that an event leads to.
pub record IsNext (event : RuntimeEvent) (previous : Option Json) (state : Json) : Type 0 where
  pub lifecycle : String
  pub of_event : event_lifecycle event.event_type ≡ some lifecycle
  pub shown : path_value state "assignment.lifecycle" ≡ some (string lifecycle)
  pub identity : path_value state "assignment.assignment_id" ≡ some (string event.stream_id)
  pub version : ℕ
  pub versioned : path_value state "assignment.version" ≡ some (number (pos_int version))
  pub counted : IsCounted previous version

versions_of-version :
    (p : Parts) (v : Versions)
    → versions_of p ≡ ok v
    → lookup "version" p.assignment ≡ some (number (pos_int v.assignment))
unfolding versions_of
versions_of-version p v h = elim (Result-cases (value_integer p.assignment "version")) [
  | inr (_, fails) ↦ ground arith
  | inl (n, read) ↦ ground (arith, value_integer-ok p.assignment "version" read)
]

module _ (w : External) where
  identities_fit-id :
      (event : RuntimeEvent) (payload : Fields) (p : Parts)
      → identities_fit w event payload p ≡ ok tt
      → lookup "assignment_id" p.assignment ≡ some (string event.stream_id)
  unfolding identities_fit
  identities_fit-id event payload p h =
      elim (Result-cases (value_text p.assignment "assignment_id")) [
        | inr (_, fails) ↦ ground arith
        | inl (id, text) ↦
            ground
              (arith, value_text-ok p.assignment "assignment_id" text, eq_iff id event.stream_id)
      ]

  lifecycles_fit-lifecycle :
      (event : RuntimeEvent) (payload : Fields) (legacy : Bool) (p : Parts)
      → lifecycles_fit event payload legacy p ≡ ok tt
      → (l : String) × (event_lifecycle event.event_type ≡ some l)
        × (lookup "lifecycle" p.assignment ≡ some (string l))
  unfolding lifecycles_fit
  lifecycles_fit-lifecycle event payload legacy p h =
      elim (Option-cases (event_lifecycle event.event_type)) [
        | inl absent ↦ ground arith
        | inr (l, of_event) ↦ elim (Option-cases (lookup "lifecycle" p.assignment)) [
          | inl absent ↦ ground arith
          | inr (v, found) ↦ (l, of_event, found ∙ ap some (is_text_iff v l (ground arith)))
        ]
      ]

  old_version-found :
      (old : Json) (path : String) {m : ℕ}
      → path_value old path ≡ some (number (pos_int m))
      → old_version w old path ≡ ok m
  unfolding old_version as_u64
  old_version-found old path found = ground arith

  versions_advance-IsCounted :
      (event : RuntimeEvent) (legacy : Bool) (v : Versions) {a m : ℕ} (b c : ℕ)
      → a ≡ m
      → versions_advance w event legacy v a b c ≡ true
      → v.assignment ≡ m + 1
  unfolding versions_advance
  versions_advance-IsCounted event legacy v b c same h =
      (eqb_iff _ _).0 (&&-eq-true _ _ h).0 ∙ ap (λ n. n + 1) same

  history_fits-IsCounted :
      (event : RuntimeEvent) (legacy : Bool) (p : Parts) (v : Versions) (previous : Option Json)
      → history_fits w event legacy p v previous ≡ ok tt
      → IsCounted previous v.assignment
  unfolding starts continues
  history_fits-IsCounted event legacy p v none h = ground (arith, ensure-eq-ok _ _ h)
  history_fits-IsCounted event legacy p v (some old) h = λ m found.
      let (_, _, h₁) =
        >>=-eq-ok (ensure (keeps_identity w p old) "ASSIGNMENT_IDENTITY_INVALID") _ h in
      let (a, read, h₂) = >>=-eq-ok (old_version w old "assignment.version") _ h₁ in
      let (b, _, h₃) = >>=-eq-ok (old_version w old "allocation.version") _ h₂ in
      let (c, _, h₄) = >>=-eq-ok (old_version w old "attempt.version") _ h₃ in
      let same = ok-injective (sym read ∙ old_version-found old "assignment.version" found) in
      versions_advance-IsCounted event legacy v b c same (ensure-eq-ok _ _ h₄)

  clean-IsNext :
      (event : RuntimeEvent) (payload : Fields) (legacy : Bool) {previous : Option Json} (p : Parts)
      (v : Versions)
      → identities_fit w event payload p ≡ ok tt
      → versions_of p ≡ ok v
      → lifecycles_fit event payload legacy p ≡ ok tt
      → IsCounted previous v.assignment
      → IsNext event previous (clean p)
  clean-IsNext event payload legacy p v identities versions lifecycles counted =
      let (l, of_event, spelled) = lifecycles_fit-lifecycle event payload legacy p lifecycles in
      record {
        lifecycle = l;
        of_event = of_event;
        shown = clean-lifecycle p spelled;
        identity = clean-id p (identities_fit-id event payload p identities);
        version = v.assignment;
        versioned = clean-version p (versions_of-version p v versions);
        counted = counted;
      }

  checked_parts-IsNext :
      (event : RuntimeEvent) (payload : Fields) (legacy : Bool) (previous : Option Json) (p : Parts)
      → checked_parts w event payload legacy previous p ≡ ok tt
      → IsNext event previous (clean p)
  unfolding checked_parts
  checked_parts-IsNext event payload legacy previous p h =
      let (_, _, h₁) = >>=-eq-ok (complete assignment_fields p.assignment) _ h in
      let (_, _, h₂) = >>=-eq-ok (complete allocation_fields p.allocation) _ h₁ in
      let (_, _, h₃) = >>=-eq-ok (complete attempt_fields p.attempt) _ h₂ in
      let (_, identities, h₄) = >>=-eq-ok (identities_fit w event payload p) _ h₃ in
      let (v, versions, h₅) = >>=-eq-ok (versions_of p) _ h₄ in
      let (_, _, h₆) = >>=-eq-ok (leases_fit w p) _ h₅ in
      let (_, lifecycles, h₇) = >>=-eq-ok (lifecycles_fit event payload legacy p) _ h₆ in
      let (_, _, h₈) = >>=-eq-ok (recovery_fits w event p) _ h₇ in
      clean-IsNext event payload legacy p v identities versions lifecycles
        (history_fits-IsCounted event legacy p v previous h₈)

  pub validated-IsNext :
      (event : RuntimeEvent) (payload : Fields) (previous : Option Json) (next : Json)
      (unknown : List String)
      → validate_assignment_state w event payload previous ≡ ok (next, unknown)
      → IsNext event previous next
  unfolding validate_assignment_state
  validated-IsNext event payload previous next unknown h =
      elim (Result-cases (raw_state event payload previous)) [
        | inr (_, fails) ↦ ground arith
        | inl (raw, made) ↦ elim (Result-cases (parts_of raw)) [
          | inr (_, fails) ↦ ground arith
          | inl (p, split) ↦
              subst (IsNext event previous) (ground arith)
                (checked_parts-IsNext event payload (is_legacy payload) previous p (ground arith))
        ]
      ]
