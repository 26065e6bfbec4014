-- ===== src/Prelude/Trim.antt =====
-- Rust's `trim`: the characters with the property White_Space go from both ends of a text.
use Prim.Native.Nat.{◌≤◌}
use Prim.Native.Char.{Char, code}
use Prim.Native.String.{String}
use mathlib.Core.Path.{◌≡◌, refl, ◌∙◌, ap}
use mathlib.Core.Bool.{Bool, true, false, not, ◌&&◌, ◌||◌}
use mathlib.Core.List.{List, [], ◌∷◌}
use native.Mathlib.Omega.{arith}
use clinx.Prelude.Tests.{eqb, leb, if◌then◌else◌}
use clinx.Prelude.Lists.{length, all, any}
use clinx.Prelude.Text.{chars, of_chars}

-- `char::is_whitespace`.
unfoldable pub is_white : Char → Bool
is_white c =
    let n = code c in
    (leb 9 n && leb n 13)
    || ((leb 0x2000 n && leb n 0x200A)
        || any (eqb n)
            (32 ∷ 0x85 ∷ 0xA0 ∷ 0x1680 ∷ 0x2028 ∷ 0x2029 ∷ 0x202F ∷ 0x205F ∷ 0x3000 ∷ []))

unfoldable pub trim_start : List Char → List Char
trim_start [] = []
trim_start (c ∷ cs) = let rest = trim_start cs in if is_white c then rest else c ∷ cs

abbrev keep_end : Char → List Char → List Char
keep_end c [] = if is_white c then [] else c ∷ []
keep_end c (d ∷ ds) = c ∷ d ∷ ds

unfoldable pub trim_end : List Char → List Char
trim_end [] = []
trim_end (c ∷ cs) = keep_end c (trim_end cs)

unfoldable pub trim_chars : List Char → List Char
trim_chars cs = trim_end (trim_start cs)

unfoldable pub trim : String → String
unfolding trim_chars
trim s = of_chars (trim_chars (chars s))

abbrev starts_white : List Char → Bool
starts_white [] = false
starts_white (c ∷ cs) = is_white c

pub chars-of_chars : (cs : List Char) → chars (of_chars cs) ≡ cs
chars-of_chars [] = refl
chars-of_chars (c ∷ cs) = ap (λ ds. c ∷ ds) (chars-of_chars cs)

trim_start-solid : (cs : List Char) → starts_white (trim_start cs) ≡ false
unfolding trim_start
trim_start-solid [] = refl
trim_start-solid (c ∷ cs) = ground (arith, trim_start-solid cs)

trim_start_solid : (cs : List Char) → starts_white cs ≡ false → trim_start cs ≡ cs
unfolding trim_start
trim_start_solid [] h = refl
trim_start_solid (c ∷ cs) h = rw h

trim_end_solid : (cs : List Char) → all (λ c. not (is_white c)) cs ≡ true → trim_end cs ≡ cs
unfolding trim_end
trim_end_solid [] h = refl
trim_end_solid (c ∷ cs) h = solid_end c cs (ground arith) (trim_end_solid cs (ground arith))
  where
    solid_end :
        (c : Char) (ds : List Char)
        → is_white c ≡ false
        → {es : List Char} → es ≡ ds
        → keep_end c es ≡ c ∷ ds
    solid_end c [] solid same = ground (arith, same, solid)
    solid_end c (d ∷ ds) solid same = ap (keep_end c) same

-- A text without white space stays as it is.
pub trim_chars_solid : (cs : List Char) → all (λ c. not (is_white c)) cs ≡ true → trim_chars cs ≡ cs
unfolding trim_chars trim_start
trim_chars_solid [] h = trim_end_solid [] h
trim_chars_solid (c ∷ cs) h =
    ap trim_end (trim_start_solid (c ∷ cs) (ground arith)) ∙ trim_end_solid (c ∷ cs) h

trim_end-solid : (cs : List Char) → starts_white cs ≡ false → starts_white (trim_end cs) ≡ false
unfolding trim_end
trim_end-solid [] h = refl
trim_end-solid (c ∷ cs) h = keep_end-solid c (trim_end cs) h
  where
    keep_end-solid :
        (c : Char) (ds : List Char) → is_white c ≡ false → starts_white (keep_end c ds) ≡ false
    keep_end-solid c [] h = ground arith
    keep_end-solid c (d ∷ ds) h = h

trim_end-trim_end : (cs : List Char) → trim_end (trim_end cs) ≡ trim_end cs
unfolding trim_end
trim_end-trim_end [] = refl
trim_end-trim_end (c ∷ cs) = kept c (trim_end cs) (trim_end-trim_end cs)
  where
    kept : (c : Char) (ds : List Char) → trim_end ds ≡ ds → trim_end (keep_end c ds) ≡ keep_end c ds
    kept c [] h = ground arith
    kept c (d ∷ ds) h = ap (keep_end c) h

pub trim_chars-trim_chars : (cs : List Char) → trim_chars (trim_chars cs) ≡ trim_chars cs
unfolding trim_chars
trim_chars-trim_chars cs =
    ap trim_end (trim_start_solid _ (trim_end-solid _ (trim_start-solid cs)))
    ∙ trim_end-trim_end (trim_start cs)

pub trim-trim : (s : String) → trim (trim s) ≡ trim s
unfolding trim
trim-trim s =
    ap (λ cs. of_chars (trim_chars cs)) (chars-of_chars (trim_chars (chars s)))
    ∙ ap of_chars (trim_chars-trim_chars (chars s))

pub length-trim_chars : (cs : List Char) → length (trim_chars cs) ≤ length cs
unfolding trim_chars trim_start trim_end
length-trim_chars cs = omega (arith, length-trim_end (trim_start cs), length-trim_start cs)
  where
    length-trim_start : (cs : List Char) → length (trim_start cs) ≤ length cs
    length-trim_start [] = ground arith
    length-trim_start (c ∷ cs) = ground (arith, length-trim_start cs)

    length-trim_end : (cs : List Char) → length (trim_end cs) ≤ length cs
    length-trim_end [] = ground arith
    length-trim_end (c ∷ cs) = ground (arith, length-trim_end cs)

-- What holds of all characters of a text holds of all that trimming leaves.
module _ (p : Char → Bool) where
  all-trim_start : (cs : List Char) → all p cs ≡ true → all p (trim_start cs) ≡ true
  unfolding trim_start
  all-trim_start [] h = refl
  all-trim_start (c ∷ cs) h = ground (arith, all-trim_start cs)

  all-trim_end : (cs : List Char) → all p cs ≡ true → all p (trim_end cs) ≡ true
  unfolding trim_end
  all-trim_end [] h = refl
  all-trim_end (c ∷ cs) h = ground (arith, all-trim_end cs)

  pub all-trim_chars : (cs : List Char) → all p cs ≡ true → all p (trim_chars cs) ≡ true
  unfolding trim_chars
  all-trim_chars cs h = all-trim_end (trim_start cs) (all-trim_start cs h)

pub chars-trim : (s : String) → chars (trim s) ≡ trim_chars (chars s)
unfolding trim
chars-trim s = chars-of_chars (trim_chars (chars s))
