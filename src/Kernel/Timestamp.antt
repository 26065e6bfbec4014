-- ===== src/Kernel/Timestamp.antt =====
-- `validate_timestamp` of kernel/src/lib.rs: canonical UTC with microseconds,
-- `YYYY-MM-DDThh:mm:ss.uuuuuu+00:00`.
use clinx.Prelude.{
  ℕ, zero, suc, ◌+◌, ◌-◌, ◌*◌, ◌%◌, String, Bool, true, not, ◌&&◌, ◌||◌, List, [], ◌∷◌, leb, eqb,
  length, any, if◌then◌else◌,
}
use clinx.Prelude.Text.{bytes}

abbrev pub byte_at : List ℕ → ℕ → ℕ
byte_at [] i = 0
byte_at (b ∷ bs) zero = b
byte_at (b ∷ bs) (suc i) = byte_at bs i

abbrev pub is_ascii_digit : ℕ → Bool
is_ascii_digit b = leb b'0' b && leb b b'9'

-- The places of the punctuation, which the loop over the bytes skips.
abbrev punctuation : List ℕ
punctuation = 4 ∷ 7 ∷ 10 ∷ 13 ∷ 16 ∷ 19 ∷ 26 ∷ 29 ∷ []

unfoldable pub well_punctuated : List ℕ → Bool
well_punctuated bs =
    eqb (length bs) 32
    && (eqb (byte_at bs 4) b'-'
        && (eqb (byte_at bs 7) b'-'
            && (eqb (byte_at bs 10) b'T'
                && (eqb (byte_at bs 13) b':'
                    && (eqb (byte_at bs 16) b':'
                        && (eqb (byte_at bs 19) b'.'
                            && (eqb (byte_at bs 26) b'+'
                                && (eqb (byte_at bs 27) b'0'
                                    && (eqb (byte_at bs 28) b'0'
                                        && (eqb (byte_at bs 29) b':'
                                            && (eqb (byte_at bs 30) b'0'
                                                && eqb (byte_at bs 31) b'0')))))))))))

-- Every byte from place `i` on is a digit, but for the punctuation.
unfoldable pub digits_from : ℕ → List ℕ → Bool
digits_from i [] = true
digits_from i (b ∷ bs) = (any (eqb i) punctuation || is_ascii_digit b) && digits_from (suc i) bs

-- `number(a..b)`: the decimal value of the `n` bytes from place `i` on.
unfoldable pub number_at : List ℕ → ℕ → ℕ → ℕ
number_at bs i zero = 0
number_at bs i (suc n) = number_at bs i n * 10 + (byte_at bs (i + n) - b'0')

abbrev pub leap_year : ℕ → Bool
leap_year y = eqb (y % 4) 0 && (not (eqb (y % 100) 0) || eqb (y % 400) 0)

unfoldable pub days_in_month : ℕ → ℕ → ℕ
days_in_month year month =
    if any (eqb month) (1 ∷ 3 ∷ 5 ∷ 7 ∷ 8 ∷ 10 ∷ 12 ∷ [])
    then 31
    else if any (eqb month) (4 ∷ 6 ∷ 9 ∷ 11 ∷ [])
    then 30
    else if eqb month 2
    then (if leap_year year then 29 else 28)
    else 0

unfoldable pub date_exists : ℕ → ℕ → ℕ → Bool
date_exists year month day =
    not (eqb year 0) && (not (eqb day 0) && leb day (days_in_month year month))

unfoldable pub time_exists : ℕ → ℕ → ℕ → Bool
time_exists hour minute second = leb hour 23 && (leb minute 59 && leb second 59)

unfoldable pub valid_timestamp : String → Bool
unfolding well_punctuated digits_from number_at date_exists time_exists days_in_month
valid_timestamp s =
    let bs = bytes s in
    well_punctuated bs
    && (digits_from 0 bs
        && (date_exists (number_at bs 0 4) (number_at bs 5 2) (number_at bs 8 2)
            && time_exists (number_at bs 11 2) (number_at bs 14 2) (number_at bs 17 2)))
