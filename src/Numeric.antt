-- ===== src/Numeric.antt =====
-- kernel/src/python_numeric.rs: the decimal syntax of Python's `int`. `Err(())` is `none`.
pub mod Decimal
use Prim.Native.Char.{Char, code}
use clinx.Prelude.{
  ℕ, suc, ◌+◌, ◌-◌, String, Bool, true, false, not, ◌&&◌, ◌||◌, Option, none, some, List, [], ◌∷◌,
  ◌++◌, leb, ltb, eqb, length, if◌then◌else◌,
}
use clinx.Prelude.Text.{chars, of_chars, is_code}
use clinx.Prelude.Trim.{trim_chars}

-- The first digit of each block of decimal digits.
abbrev pub zeros : List ℕ
zeros =
    48 ∷ 1632 ∷ 1776 ∷ 1984 ∷ 2406 ∷ 2534 ∷ 2662 ∷ 2790 ∷ 2918 ∷ 3046 ∷ 3174 ∷ 3302 ∷ 3430 ∷ 3558
    ∷ 3664 ∷ 3792 ∷ 3872 ∷ 4160 ∷ 4240 ∷ 6112 ∷ 6160 ∷ 6470 ∷ 6608 ∷ 6784 ∷ 6800 ∷ 6992 ∷ 7088
    ∷ 7232 ∷ 7248 ∷ 42528 ∷ 43216 ∷ 43264 ∷ 43472 ∷ 43504 ∷ 43600 ∷ 44016 ∷ 65296 ∷ 66720 ∷ 68912
    ∷ 68928 ∷ 69734 ∷ 69872 ∷ 69942 ∷ 70096 ∷ 70384 ∷ 70736 ∷ 70864 ∷ 71248 ∷ 71360 ∷ 71376 ∷ 71386
    ∷ 71472 ∷ 71904 ∷ 72016 ∷ 72688 ∷ 72784 ∷ 73040 ∷ 73120 ∷ 73552 ∷ 90416 ∷ 92768 ∷ 92864 ∷ 93008
    ∷ 93552 ∷ 118000 ∷ 120782 ∷ 120792 ∷ 120802 ∷ 120812 ∷ 120822 ∷ 123200 ∷ 123632 ∷ 124144
    ∷ 124401 ∷ 125264 ∷ 130032 ∷ []

abbrev pub max_digits : ℕ
max_digits = 4300

unfoldable pub digit_in : ℕ → List ℕ → Option ℕ
digit_in c [] = none
digit_in c (z ∷ zs) =
    let rest = digit_in c zs in if leb z c && ltb c (z + 10) then some (c - z) else rest

unfoldable pub digit_value : Char → Option ℕ
unfolding digit_in
digit_value c = digit_in (code c) zeros

-- `char::from(b'0' + digit)`
abbrev pub digit_char : ℕ → Char
digit_char n =
    if eqb n 0
    then "0"
    else if eqb n 1
    then "1"
    else if eqb n 2
    then "2"
    else if eqb n 3
    then "3"
    else if eqb n 4
    then "4"
    else if eqb n 5
    then "5"
    else if eqb n 6
    then "6"
    else if eqb n 7
    then "7"
    else if eqb n 8
    then "8"
    else "9"

abbrev pub is_underscore : Char → Bool
is_underscore c = is_code 95 c

abbrev push_digit : Option ℕ → Option (List Char) → Option (List Char)
push_digit (some d) (some ds) = some (digit_char d ∷ ds)
push_digit _ _ = none

-- The loop over the characters but the underscores.
unfoldable pub digits_of : List Char → Option (List Char)
digits_of [] = some []
digits_of (c ∷ cs) =
    let rest = digits_of cs in if is_underscore c then rest else push_digit (digit_value c) rest

-- The sign and what follows it.
unfoldable pub split_sign : List Char → List Char × List Char
split_sign [] = ([], [])
split_sign (c ∷ cs) =
    if is_code 45 c then ("-" ∷ [], cs) else if is_code 43 c then ([], cs) else ([], c ∷ cs)

abbrev starts_underscore : List Char → Bool
starts_underscore [] = false
starts_underscore (c ∷ cs) = is_underscore c

-- `ends_with('_')` or `contains("__")`
unfoldable pub badly_grouped : List Char → Bool
badly_grouped [] = false
badly_grouped (c ∷ []) = is_underscore c
badly_grouped (c ∷ d ∷ cs) = (is_underscore c && is_underscore d) || badly_grouped (d ∷ cs)

abbrev pub is_empty : List Char → Bool
is_empty [] = true
is_empty (c ∷ cs) = false

unfoldable pub well_placed : List Char → Bool
unfolding badly_grouped
well_placed cs = not (is_empty cs) && (not (starts_underscore cs) && not (badly_grouped cs))

abbrev pub limited : List Char → Option (List Char) → Option (List Char)
limited sign none = none
limited sign (some ds) = if leb (length ds) max_digits then some (sign ++ ds) else none

abbrev pub signed : List Char × List Char → Option (List Char)
signed (sign, digits) = if well_placed digits then limited sign (digits_of digits) else none

unfoldable pub integer_chars : List Char → Option (List Char)
integer_chars cs = signed (split_sign (trim_chars cs))

unfoldable pub integer_text : String → Option String
unfolding integer_chars
integer_text s = elim (integer_chars (chars s)) [ none ↦ none | some cs ↦ some (of_chars cs) ]
