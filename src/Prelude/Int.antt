-- ===== src/Prelude/Int.antt =====
-- Signed machine integers over the native numbers: what `serde_json` hands out by `as_i64`, and
-- the checked addition of one. `negsuc n` is -(n + 1).
use Prim.Native.Nat.{ℕ, suc, ◌+◌, ◌-◌}
use mathlib.Core.Path.{◌≡◌}
use mathlib.Core.Logic.{◌↔◌}
use mathlib.Core.Bool.{Bool, true, false}
use mathlib.Core.Option.{Option, none, some}
use native.Mathlib.Omega.{arith}
use clinx.Prelude.Tests.{ltb, leb, eqb, if◌then◌else◌}

pub data ℤ : Type 0 where
  pos : ℕ → ℤ
  negsuc : ℕ → ℤ

-- `i64::MAX` and `u64::MAX`.
abbrev pub i64_max : ℕ
i64_max = 9223372036854775807

abbrev pub u64_max : ℕ
u64_max = 18446744073709551615

abbrev pub pos_part : ℤ → ℕ
pos_part (pos n) = n
pos_part (negsuc n) = 0

abbrev pub neg_part : ℤ → ℕ
neg_part (pos n) = 0
neg_part (negsuc n) = suc n

abbrev pub ltb_ℤ : ℤ → ℤ → Bool
ltb_ℤ a b = ltb (pos_part a + neg_part b) (pos_part b + neg_part a)

abbrev pub leb_ℤ : ℤ → ℤ → Bool
leb_ℤ a b = leb (pos_part a + neg_part b) (pos_part b + neg_part a)

abbrev pub eqb_ℤ : ℤ → ℤ → Bool
eqb_ℤ (pos a) (pos b) = eqb a b
eqb_ℤ (negsuc a) (negsuc b) = eqb a b
eqb_ℤ _ _ = false

-- Equality of two optional integers, Rust's `==` on `Option<i64>`.
abbrev pub eqb_option : Option ℤ → Option ℤ → Bool
eqb_option none none = true
eqb_option (some a) (some b) = eqb_ℤ a b
eqb_option _ _ = false

-- The sum of two integers, and `a.checked_add(b)` on `i64`.
abbrev pub ◌+ℤ◌ : ℤ → ℤ → ℤ
◌+ℤ◌ (pos a) (pos b) = pos (a + b)
◌+ℤ◌ (pos a) (negsuc b) = if ltb b a then pos (a - b - 1) else negsuc (b - a)
◌+ℤ◌ (negsuc a) (pos b) = if ltb a b then pos (b - a - 1) else negsuc (a - b)
◌+ℤ◌ (negsuc a) (negsuc b) = negsuc (a + b + 1)

-- Within the range of `i64`.
abbrev pub in_i64 : ℤ → Bool
in_i64 (pos n) = leb n i64_max
in_i64 (negsuc n) = leb n i64_max

abbrev pub checked_add : ℤ → ℤ → Option ℤ
checked_add a b = if in_i64 (◌+ℤ◌ a b) then some (◌+ℤ◌ a b) else none

pub eqb_ℤ_iff : (a b : ℤ) → (eqb_ℤ a b ≡ true) ↔ (a ≡ b)
eqb_ℤ_iff a b = ground arith

pub eqb_option-some : (o : Option ℤ) (a : ℤ) → eqb_option o (some a) ≡ true → o ≡ some a
eqb_option-some o a h = ground arith
