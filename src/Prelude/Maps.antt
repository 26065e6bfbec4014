-- ===== src/Prelude/Maps.antt =====
-- The ordered map keyed by a pair of texts (`BTreeMap<(String, String), V>`), as an association
-- list in key order, and its lookup laws.
use Prim.Native.Nat.{Ordering}
use Prim.Native.String.{String, compare}
use mathlib.Core.Path.{◌≡◌, refl}
use mathlib.Core.Bool.{Bool, ◌&&◌}
use mathlib.Core.Option.{Option, none, some}
use mathlib.Core.List.{List, [], ◌∷◌}
use native.Mathlib.Omega.{arith}
use text.Mathlib.Text.{◌==◌}
use text.Mathlib.TextEquality.{eq_iff}
use clinx.Prelude.Tests.{if◌then◌else◌}

abbrev pub Key : Type 0
Key = String × String

abbrev pub same_key : Key → Key → Bool
same_key (a, b) (c, d) = a == c && b == d

abbrev pub compare_key : Key → Key → Ordering
compare_key (a, b) (c, d) = elim (compare a c) [
  | Ordering.eq ↦ compare b d
  | Ordering.lt ↦ Ordering.lt
  | Ordering.gt ↦ Ordering.gt
]

module _ {ℓ} {V : Type ℓ} where
  unfoldable pub find : Key → List (Key × V) → Option V
  find k [] = none
  find k ((j, v) ∷ m) = if same_key j k then some v else find k m

  unfoldable pub insert : Key → V → List (Key × V) → List (Key × V)
  insert k v [] = (k, v) ∷ []
  insert k v ((j, u) ∷ m) =
      let rest = insert k v m in
      elim (compare_key k j) [
        | Ordering.lt ↦ (k, v) ∷ (j, u) ∷ m
        | Ordering.eq ↦ (k, v) ∷ m
        | Ordering.gt ↦ (j, u) ∷ rest
      ]

  pub find-insert :
      (k j : Key) (v : V) (m : List (Key × V))
      → find j (insert k v m) ≡ (if same_key k j then some v else find j m)
  unfolding find insert
  find-insert k j v [] = refl
  find-insert (a, b) (c, d) v (((e, f), u) ∷ m) = ground (
    arith,
    eq_iff a c,
    eq_iff b d,
    eq_iff a e,
    eq_iff b f,
    eq_iff e c,
    eq_iff f d,
    find-insert (a, b) (c, d) v m,
  )
