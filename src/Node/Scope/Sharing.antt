-- ===== src/Node/Scope/Sharing.antt =====
-- What the intersection of two scopes in kernel/src/node_scope.rs lets through.
use clinx.Prelude.{
  String, ◌≡◌, refl, ap, true, false, ◌&&◌, ◌||◌, Option, none, some, List, [], ◌∷◌, ◌==◌, eq_iff,
  arith, any, contains, Bool-cases, inl, inr, ◌⊎◌,
}
use clinx.Prelude.Results.{ok}
use clinx.Json.{string}
use clinx.Json.Access.{lookup, as_str, as_bool, is_text}
use clinx.Json.Decode.{struct_fields}
use clinx.Node.Scope.{
  provider, Scope, decode, parse, checked, allows, project, common, common_projects, both,
  intersect, revoked_scope,
}

contains-common :
    (k : String) (ls cs : List String)
    → contains (common ls cs) k ≡ (contains ls k && contains cs k)
contains-common k [] cs = refl
contains-common k (p ∷ ps) cs =
    ground
      (arith, contains-common k ps cs, λ (e : (p == k) ≡ true). ap (contains cs) ((eq_iff p k).0 e))

revoked_scope-revoked :
    (now user : String) (s : Scope) → revoked_scope now user ≡ ok s → s.revoked ≡ true
unfolding revoked_scope parse decode struct_fields checked lookup as_bool as_str
revoked_scope-revoked now user s h = ground arith

both-allows :
    (l c : Scope) (operation : String)
    → (l.revoked || c.revoked) ≡ false
    → allows (both l c) operation ≡ (allows l operation && allows c operation)
unfolding both allows
both-allows l c operation h = ground (arith, contains-common provider l.providers c.providers)

revoked-allows : (s : Scope) (operation : String) → s.revoked ≡ true → allows s operation ≡ false
unfolding allows
revoked-allows s operation h = ground arith

-- The intersection of an approval of the node and one of its centre allows an operation just where
-- both of them allow it.
pub intersect-allows :
    (now : String) (l c e : Scope) (operation : String)
    → intersect now (some l) (some c) ≡ ok e
    → allows e operation ≡ (allows l operation && allows c operation)
unfolding intersect
intersect-allows now l c e operation h = elim (Bool-cases (l.revoked || c.revoked)) [
  | inl off ↦
      let denied =
        revoked-allows e operation (revoked_scope-revoked now c.user_scope e (ground arith)) in
      ground (arith, denied, revoked-allows l operation, revoked-allows c operation)
  | inr on ↦ ground (arith, both-allows l c operation on)
]

-- Without an approval of the node and one of its centre, nothing is allowed.
pub intersect_denies :
    (now : String) (local centre : Option Scope) (e : Scope) (operation : String)
    → (local ≡ none) ⊎ (centre ≡ none)
    → intersect now local centre ≡ ok e
    → allows e operation ≡ false
unfolding intersect
intersect_denies now none centre e operation missing h =
    revoked-allows e operation (revoked_scope-revoked now _ e h)
intersect_denies now (some l) none e operation missing h =
    revoked-allows e operation (revoked_scope-revoked now _ e h)
intersect_denies now (some l) (some c) e operation missing h = absurd (ground arith)

-- A project by its path, which is no wildcard.
any-text :
    (cwd : String) (ps : List String)
    → any (λ p. p == "*" || is_text (string cwd) p) ps ≡ (contains ps "*" || contains ps cwd)
unfolding is_text
any-text cwd [] = refl
any-text cwd (p ∷ ps) = ground (arith, any-text cwd ps, eq_iff cwd p, eq_iff p cwd)

contains-common_projects :
    (cwd : String) (ls cs : List String)
    → (contains (common_projects ls cs) "*" || contains (common_projects ls cs) cwd)
      ≡ ((contains ls "*" || contains ls cwd) && (contains cs "*" || contains cs cwd))
unfolding common_projects
contains-common_projects cwd ls cs =
    ground (arith, contains-common cwd ls cs, contains-common "*" ls cs)

-- Where neither approval is revoked, their intersection opens a project, by a path, just where
-- both open it.
pub intersect-project :
    (now : String) (l c e : Scope) (cwd : String)
    → (l.revoked || c.revoked) ≡ false
    → intersect now (some l) (some c) ≡ ok e
    → project e (string cwd) ≡ (project l (string cwd) && project c (string cwd))
unfolding intersect project both
intersect-project now l c e cwd on h = ground (
  arith,
  contains-common_projects cwd l.projects c.projects,
  any-text cwd e.projects,
  any-text cwd l.projects,
  any-text cwd c.projects,
)
