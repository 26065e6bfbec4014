-- ===== src/ExecutionCore/Evidence/Identities.antt =====
-- What an identity guarantees of each of its members.
use clinx.Prelude.{
  String, ◌≡◌, refl, Bool, true, some, List, [], ◌∷◌, arith, ◌==◌, eq_iff, all, contains, subst,
  Bool-cases, inl, inr, is_some,
}
use clinx.Json.{Json, object, Fields, end, field, names, entries}
use clinx.Json.Access.{lookup, ◌!◌, as_i64, !-lookup}
use clinx.ExecutionCore.Evidence.{same_names, identity, identity_member, owner_names}

-- A named member of a map that passes a test on all its members is there, and passes it.
pub entries-member :
    (p : String × Json → Bool) (fs : Fields) (k : String)
    → contains (names fs) k ≡ true
    → all p (entries fs) ≡ true
    → (v : Json) × (lookup k fs ≡ some v) × (p (k, v) ≡ true)
unfolding lookup
entries-member p end k c h = absurd (ground arith)
entries-member p (field j v fs) k c h = elim (Bool-cases (j == k)) [
  | inl same ↦ (v, ground arith, subst (λ i. p (i, v) ≡ true) ((eq_iff j k).0 same) (ground arith))
  | inr other ↦
      let (u, found, passes) = entries-member p fs k (ground arith) (ground arith) in
      (u, ground arith, passes)
]

identity_lookup :
    (o : Fields) (s : List String) (k : String)
    → all (contains (names o)) s ≡ true
    → contains s k ≡ true
    → contains (names o) k ≡ true
identity_lookup o [] k h c = absurd (ground arith)
identity_lookup o (j ∷ s) k h c = elim (Bool-cases (j == k)) [
  | inl same ↦ subst (λ i. contains (names o) i ≡ true) ((eq_iff j k).0 same) (ground arith)
  | inr other ↦ identity_lookup o s k (ground arith) (ground arith)
]

pub identity-member :
    (v : Json) (s : List String) (k : String)
    → identity v s ≡ true
    → contains s k ≡ true
    → identity_member (k, v ! k) ≡ true
unfolding identity same_names
identity-member (object o) s k h c =
    let (u, found, passes) =
      entries-member identity_member o k (identity_lookup o s k (ground arith) c) (ground arith) in
    rw (!-lookup o k u found) passes
identity-member _ s k h c = absurd (ground arith)

-- An owner's epoch is a positive integer.
pub owner_epoch :
    (v : Json) → identity v owner_names ≡ true → is_some (as_i64 (v ! "resource_epoch")) ≡ true
unfolding identity_member
owner_epoch v h =
    let member : identity_member ("resource_epoch", v ! "resource_epoch") ≡ true =
      identity-member v owner_names "resource_epoch" h refl in
    ground arith
