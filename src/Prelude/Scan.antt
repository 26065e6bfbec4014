-- ===== src/Prelude/Scan.antt =====
-- Rust's `rsplit_once`, `split_whitespace` and `parse::<u64>`.
use Prim.Native.Nat.{ℕ, ◌+◌, ◌-◌, ◌*◌}
use Prim.Native.Char.{Char, code}
use Prim.Native.String.{String}
use mathlib.Core.Bool.{Bool, true, false, ◌&&◌}
use mathlib.Core.Option.{Option, none, some}
use mathlib.Core.List.{List, [], ◌∷◌}
use clinx.Prelude.Tests.{leb, if◌then◌else◌}
use clinx.Prelude.Int.{u64_max}
use clinx.Prelude.Text.{chars, is_code, of_chars}
use clinx.Prelude.Trim.{is_white}

-- What follows the last character with the code.
unfoldable after_last : ℕ → List Char → Option (List Char)
after_last n [] = none
after_last n (c ∷ cs) = elim (after_last n cs) [
  | some rest ↦ some rest
  | none ↦ if is_code n c then some cs else none
]

unfoldable pub rsplit_after : ℕ → String → Option String
unfolding after_last
rsplit_after n s = elim (after_last n (chars s)) [ none ↦ none | some cs ↦ some (of_chars cs) ]

-- A character in front of the words of the rest: `spaced` says that the rest starts with a space
-- or is empty.
abbrev grow : Char → Bool → List String → List String
grow c false (w ∷ ws) = String.◌∷◌ c w ∷ ws
grow c _ ws = String.◌∷◌ c "" ∷ ws

unfoldable starts_blank : List Char → Bool
starts_blank [] = true
starts_blank (c ∷ cs) = is_white c

unfoldable words_of : List Char → List String
unfolding starts_blank
words_of [] = []
words_of (c ∷ cs) =
    let rest = words_of cs in if is_white c then rest else grow c (starts_blank cs) rest

unfoldable pub words : String → List String
unfolding words_of
words s = words_of (chars s)

abbrev is_digit : Char → Bool
is_digit c = leb 48 (code c) && leb (code c) 57

-- Digits behind a number, within 64 bits.
unfoldable digits : ℕ → List Char → Option ℕ
digits n [] = some n
digits n (c ∷ cs) =
    let m = n * 10 + (code c - 48) in
    let rest = digits m cs in if is_digit c && leb m u64_max then rest else none

abbrev number_of : List Char → Option ℕ
number_of [] = none
number_of (c ∷ cs) = digits 0 (c ∷ cs)

abbrev unsigned : List Char → Option ℕ
unsigned [] = none
unsigned (c ∷ cs) = if is_code 43 c then number_of cs else number_of (c ∷ cs)

unfoldable pub parse_u64 : String → Option ℕ
unfolding digits
parse_u64 s = unsigned (chars s)
