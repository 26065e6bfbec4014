-- ===== src/Prelude/Sorted.antt =====
-- Lists whose keys ascend strictly, as those of an ordered map, and `insert` on them.
use Prim.Native.Nat.{Ordering}
use mathlib.Core.Path.{◌≡◌, refl, sym, ◌∙◌, ap, subst}
use mathlib.Core.List.{List, [], ◌∷◌}
use clinx.Prelude.Lists.{All}
use clinx.Prelude.Maps.{Key, compare_key, insert}
use clinx.Prelude.Order.{IsBefore, IsBefore-trans, swap, compare_key-swap, key_by_compare}

module _ {ℓ} {V : Type ℓ} where
  -- Every key of the map comes after `k`.
  abbrev IsAbove : Key → List (Key × V) → Type 0
  IsAbove k m = All (λ (x : Key × V). IsBefore k x.0) m

  abbrev pub IsSorted : List (Key × V) → Type 0
  IsSorted [] = Unit
  IsSorted ((k, v) ∷ m) = IsAbove k m × IsSorted m

  IsAbove-trans : (k j : Key) (m : List (Key × V)) → IsBefore k j → IsAbove j m → IsAbove k m
  IsAbove-trans k j [] p h = tt
  IsAbove-trans k j (x ∷ m) p (q, h) = (IsBefore-trans k j x.0 p q, IsAbove-trans k j m p h)

  insert-IsAbove :
      (j k : Key) (v : V) (m : List (Key × V))
      → IsBefore j k
      → IsAbove j m
      → IsAbove j (insert k v m)
  unfolding insert
  insert-IsAbove j k v [] p h = (p, tt)
  insert-IsAbove j k v ((l, u) ∷ m) p (q, h) =
      by_order (compare_key k l) (insert-IsAbove j k v m p h)
    where
      by_order :
          (o : Ordering)
          → IsAbove j (insert k v m)
          → IsAbove j (elim o [
            | Ordering.lt ↦ (k, v) ∷ (l, u) ∷ m
            | Ordering.eq ↦ (k, v) ∷ m
            | Ordering.gt ↦ (l, u) ∷ insert k v m
          ])
      by_order Ordering.lt rest = (p, (q, h))
      by_order Ordering.eq rest = (p, h)
      by_order Ordering.gt rest = (q, rest)

  pub insert-IsSorted :
      (k : Key) (v : V) (m : List (Key × V)) → IsSorted m → IsSorted (insert k v m)
  unfolding insert
  insert-IsSorted k v [] h = (tt, tt)
  insert-IsSorted k v ((j, u) ∷ m) (above, h) =
      by_order (compare_key k j) refl (insert-IsSorted k v m h)
    where
      by_order :
          (o : Ordering)
          → compare_key k j ≡ o
          → IsSorted (insert k v m)
          → IsSorted (elim o [
            | Ordering.lt ↦ (k, v) ∷ (j, u) ∷ m
            | Ordering.eq ↦ (k, v) ∷ m
            | Ordering.gt ↦ (j, u) ∷ insert k v m
          ])
      by_order Ordering.lt p rest = ((p, IsAbove-trans k j m p above), (above, h))
      by_order Ordering.eq p rest = (subst (λ x. IsAbove x m) (sym (key_by_compare k j p)) above, h)
      by_order Ordering.gt p rest =
          (insert-IsAbove j k v m (compare_key-swap k j ∙ ap swap p) above, rest)
