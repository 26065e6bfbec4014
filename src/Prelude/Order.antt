-- ===== src/Prelude/Order.antt =====
-- The order of the texts and of the keys that an ordered map compares by.
use Prim.Native.Nat.compare as compare_ℕ
use Prim.Native.String.compare
use Prim.Native.Nat.{ℕ, zero, suc, Ordering, compare as compare_ℕ}
use Prim.Native.Char.{code}
use Prim.Native.String.{String, compare, then}
use mathlib.Core.Path.{◌≡◌, refl, sym, ◌∙◌, subst}
use mathlib.Core.Logic.{◌⊎◌, inl, inr}
use native.Mathlib.Omega.{arith}
use text.Mathlib.TextEquality.{path_by_compare, codes_equal}
use clinx.Prelude.Maps.{Key, compare_key}

abbrev pub swap : Ordering → Ordering
swap Ordering.lt = Ordering.gt
swap Ordering.eq = Ordering.eq
swap Ordering.gt = Ordering.lt

swap-then : (a b : Ordering) → then (swap a) (swap b) ≡ swap (then a b)
swap-then Ordering.lt b = refl
swap-then Ordering.eq b = refl
swap-then Ordering.gt b = refl

numbers_swap : (m n : ℕ) → compare_ℕ n m ≡ swap (compare_ℕ m n)
numbers_swap zero zero = rw compare_ℕ.zero-zero refl
numbers_swap zero (suc n) = rw (compare_ℕ.zero-suc n, compare_ℕ.suc-zero n) refl
numbers_swap (suc m) zero = rw (compare_ℕ.zero-suc m, compare_ℕ.suc-zero m) refl
numbers_swap (suc m) (suc n) = rw (compare_ℕ.suc-suc m n, compare_ℕ.suc-suc n m) (numbers_swap m n)

texts_swap : (s t : String) → compare t s ≡ swap (compare s t)
texts_swap String.[] String.[] = rw compare.nil-nil refl
texts_swap String.[] (String.◌∷◌ d t) = rw (compare.nil-cons d t, compare.cons-nil d t) refl
texts_swap (String.◌∷◌ c s) String.[] = rw (compare.nil-cons c s, compare.cons-nil c s) refl
texts_swap (String.◌∷◌ c s) (String.◌∷◌ d t) =
    rw
      (
        compare.cons-cons c d s t,
        compare.cons-cons d c t s,
        numbers_swap (code c) (code d),
        texts_swap s t,
      )
      (swap-then _ _)

numbers_trans :
    (l m n : ℕ)
    → compare_ℕ l m ≡ Ordering.lt
    → compare_ℕ m n ≡ Ordering.lt
    → compare_ℕ l n ≡ Ordering.lt
numbers_trans zero zero n p q = absurd (ground (arith, compare_ℕ.zero-zero))
numbers_trans (suc l) zero n p q = absurd (ground (arith, compare_ℕ.suc-zero l))
numbers_trans l (suc m) zero p q = absurd (ground (arith, compare_ℕ.suc-zero m))
numbers_trans zero (suc m) (suc n) p q = compare_ℕ.zero-suc n
numbers_trans (suc l) (suc m) (suc n) p q =
    compare_ℕ.suc-suc l n
    ∙ numbers_trans l m n (sym (compare_ℕ.suc-suc l m) ∙ p) (sym (compare_ℕ.suc-suc m n) ∙ q)

-- The first of two comparisons that is not equal decides.
abbrev Decides : Ordering → Ordering → Type 0
Decides a b = (a ≡ Ordering.lt) ⊎ ((a ≡ Ordering.eq) × (b ≡ Ordering.lt))

Decides-then : (a b : Ordering) → then a b ≡ Ordering.lt → Decides a b
Decides-then Ordering.lt b h = inl refl
Decides-then Ordering.eq b h = inr (refl, h)
Decides-then Ordering.gt b h = cc

then-Decides : (a b : Ordering) → Decides a b → then a b ≡ Ordering.lt
then-Decides a b (inl h) = rw h refl
then-Decides a b (inr (h, l)) = rw h l

texts_trans :
    (s t u : String)
    → compare s t ≡ Ordering.lt
    → compare t u ≡ Ordering.lt
    → compare s u ≡ Ordering.lt
texts_trans String.[] String.[] u p q = q
texts_trans (String.◌∷◌ c s) String.[] u p q = absurd (ground (arith, compare.cons-nil c s))
texts_trans s (String.◌∷◌ d t) String.[] p q = absurd (ground (arith, compare.cons-nil d t))
texts_trans String.[] (String.◌∷◌ d t) (String.◌∷◌ e u) p q = compare.nil-cons e u
texts_trans (String.◌∷◌ c s) (String.◌∷◌ d t) (String.◌∷◌ e u) p q =
    compare.cons-cons c e s u
    ∙ then-Decides _ _ (
        joined (texts_trans s t u) (Decides-then _ _ (sym (compare.cons-cons c d s t) ∙ p))
          (Decides-then _ _ (sym (compare.cons-cons d e t u) ∙ q)))
  where
    joined :
        (compare s t ≡ Ordering.lt → compare t u ≡ Ordering.lt → compare s u ≡ Ordering.lt)
        → Decides (compare_ℕ (code c) (code d)) (compare s t)
        → Decides (compare_ℕ (code d) (code e)) (compare t u)
        → Decides (compare_ℕ (code c) (code e)) (compare s u)
    joined rest (inl a) (inl b) = inl (numbers_trans (code c) (code d) (code e) a b)
    joined rest (inl a) (inr (b, _)) =
        inl (subst (λ x. compare_ℕ (code c) (code x) ≡ Ordering.lt) (codes_equal d e b) a)
    joined rest (inr (a, _)) (inl b) =
        inl (subst (λ x. compare_ℕ (code x) (code e) ≡ Ordering.lt) (sym (codes_equal c d a)) b)
    joined rest (inr (a, l)) (inr (b, m)) =
        inr (subst (λ x. compare_ℕ (code c) (code x) ≡ Ordering.eq) (codes_equal d e b) a, rest l m)

-- A key is before another.
abbrev pub IsBefore : Key → Key → Type 0
IsBefore k j = compare_key k j ≡ Ordering.lt

compare_key-then : (k j : Key) → compare_key k j ≡ then (compare k.0 j.0) (compare k.1 j.1)
compare_key-then (a, b) (c, d) = by_first (compare a c)
  where
    by_first :
        (o : Ordering)
        → (elim o [
          | Ordering.eq ↦ compare b d
          | Ordering.lt ↦ Ordering.lt
          | Ordering.gt ↦ Ordering.gt
        ])
          ≡ then o (compare b d)
    by_first Ordering.lt = refl
    by_first Ordering.eq = refl
    by_first Ordering.gt = refl

pub IsBefore-trans : (k j l : Key) → IsBefore k j → IsBefore j l → IsBefore k l
IsBefore-trans k j l p q =
    compare_key-then k l
    ∙ then-Decides _ _ (
        joined (Decides-then _ _ (sym (compare_key-then k j) ∙ p))
          (Decides-then _ _ (sym (compare_key-then j l) ∙ q)))
  where
    joined :
        Decides (compare k.0 j.0) (compare k.1 j.1)
        → Decides (compare j.0 l.0) (compare j.1 l.1)
        → Decides (compare k.0 l.0) (compare k.1 l.1)
    joined (inl a) (inl b) = inl (texts_trans k.0 j.0 l.0 a b)
    joined (inl a) (inr (b, _)) =
        inl (subst (λ x. compare k.0 x ≡ Ordering.lt) (path_by_compare j.0 l.0 b) a)
    joined (inr (a, _)) (inl b) =
        inl (subst (λ x. compare x l.0 ≡ Ordering.lt) (sym (path_by_compare k.0 j.0 a)) b)
    joined (inr (a, m)) (inr (b, n)) = inr (
      subst (λ x. compare k.0 x ≡ Ordering.eq) (path_by_compare j.0 l.0 b) a,
      texts_trans k.1 j.1 l.1 m n,
    )

pub compare_key-swap : (k j : Key) → compare_key j k ≡ swap (compare_key k j)
compare_key-swap k j =
    rw (compare_key-then k j, compare_key-then j k, texts_swap k.0 j.0, texts_swap k.1 j.1)
      (swap-then _ _)

pub key_by_compare : (k j : Key) → compare_key k j ≡ Ordering.eq → k ≡ j
key_by_compare k j h =
    let (first, second) = parts _ _ (sym (compare_key-then k j) ∙ h) in
    λ i. (path_by_compare k.0 j.0 first i, path_by_compare k.1 j.1 second i)
  where
    parts : (a b : Ordering) → then a b ≡ Ordering.eq → (a ≡ Ordering.eq) × (b ≡ Ordering.eq)
    parts Ordering.eq b h = (refl, h)
    parts Ordering.lt b h = cc
    parts Ordering.gt b h = cc
