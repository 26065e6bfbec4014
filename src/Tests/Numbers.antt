-- ===== src/Tests/Numbers.antt =====
-- The theorem on decimal numbers, at one with a sign, a group and a space.
use clinx.Prelude.{◌≡◌, refl, some}
use clinx.Prelude.Text.{chars}
use clinx.Numeric.Decimal.{IsDecimal, integer_text-IsDecimal}
use clinx.Prelude.Trim.{is_white, trim_start, trim_end, trim_chars, trim}
use clinx.Numeric.{
  digit_in, digit_value, digits_of, split_sign, badly_grouped, well_placed, integer_chars,
  integer_text,
}

number-normalizes : integer_text " -1_2" ≡ some "-12"
unfolding is_white trim_start trim_end trim_chars trim digit_in digit_value digits_of split_sign
    badly_grouped well_placed integer_chars integer_text
number-normalizes = refl

integer_text-IsDecimal_example : IsDecimal (chars "-12") × (integer_text "-12" ≡ some "-12")
integer_text-IsDecimal_example = integer_text-IsDecimal " -1_2" "-12" number-normalizes
