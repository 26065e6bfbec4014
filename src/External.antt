-- ===== src/External.antt =====
-- What the kernel takes from code outside the repository: IEEE 754 arithmetic of `f64` (on bit
-- patterns), the printer of serde_json and the SHA-256 of the crate sha2. Every definition that
-- depends on one of these takes the record as a parameter.
use clinx.Prelude.{ℕ, String, Bool}
use clinx.Prelude.Int.{ℤ}
use clinx.Json.{Json}

pub record External : Type 0 where
  -- `n as f64`, `<`, `<=`, `==`, `-`, `+`, `is_finite`, `fract() == 0.0` and `f as i128`.
  pub of_int : ℤ → ℕ
  pub float_lt : ℕ → ℕ → Bool
  pub float_le : ℕ → ℕ → Bool
  pub float_eq : ℕ → ℕ → Bool
  pub float_sub : ℕ → ℕ → ℕ
  pub float_add : ℕ → ℕ → ℕ
  pub is_finite : ℕ → Bool
  pub is_whole : ℕ → Bool
  pub to_int : ℕ → ℤ
  -- `Duration::try_from_secs_f64(f).is_ok()`
  pub fits_duration : ℕ → Bool
  -- `serde_json::to_string`, and the lower-case hexadecimal SHA-256 of a text's UTF-8.
  pub print : Json → String
  pub sha256 : String → String
