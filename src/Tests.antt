-- ===== src/Tests.antt =====
-- Concrete inputs for the theorems: the code outside the repository is instantiated by a toy
-- arithmetic on natural numbers, a toy printer and a constant hash.
mod Transitions
mod Guards
mod Replays
mod Receipts
mod Ownership
mod Assignments
mod Numbers
mod Leases
mod Tunnels
mod Protocol
mod Peers
mod Windows
mod Sharing
use Prim.Native.String
use clinx.Prelude.{ℕ, String, Bool, true, false, ◌+◌, ◌-◌, ltb, leb, eqb}
use clinx.Prelude.Int.{ℤ, pos, negsuc}
use clinx.Prelude.Results.{Result, ok, err}
use clinx.Json.{Json, string}
use clinx.External.{External}

abbrev of_ℤ : ℤ → ℕ
of_ℤ (pos n) = n
of_ℤ (negsuc n) = 0

abbrev print : Json → String
print (string s) = String.◌++◌ "text " s
print _ = "value"

abbrev pub zeros : String
zeros = "0000000000000000000000000000000000000000000000000000000000000000"

abbrev pub ext : External
ext = record {
  of_int = of_ℤ;
  float_lt = ltb;
  float_le = leb;
  float_eq = eqb;
  float_sub = λ a b. a - b;
  float_add = λ a b. a + b;
  fits_duration = λ _. true;
  is_finite = λ _. true;
  is_whole = λ _. true;
  to_int = pos;
  print = print;
  sha256 = λ _. zeros;
}

abbrev pub value_of : {E A : Type 0} → Result E A → A → A
value_of (ok a) d = a
value_of (err e) d = d
