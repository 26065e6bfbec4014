-- ===== src/ExecutionCore/Canonical.antt =====
-- `canonical` and `digest` of execution_core.rs: the canonical JSON text that is hashed, with
-- Python's spelling of floats.
use Prim.Native.Char.{Char, code}
use Prim.Native.String
use clinx.Prelude.{
  ℕ, zero, suc, ◌+◌, ◌-◌, ◌*◌, String, Bool, true, false, ◌&&◌, ◌||◌, Option, none, some, List, [],
  ◌∷◌, ltb, leb, eqb, length, unwrap_or, if◌then◌else◌,
}
use clinx.Prelude.Int.{ℤ, pos, negsuc, ◌+ℤ◌, ltb_ℤ, leb_ℤ}
use clinx.Json.{
  pos_int, float, Json, number, string, array, object, Items, nil, cons, Fields, end, field,
}
use clinx.Prelude.Text.{chars, of_chars, concat, is_code}
use clinx.External.{External}

abbrev is_digit : Char → Bool
is_digit c = leb b'0' (code c) && leb (code c) b'9'

abbrev is_exponent_mark : Char → Bool
is_exponent_mark c = is_code b'e' c || is_code b'E' c

-- The characters before the first that passes the test, and those after it.
module _ (p : Char → Bool) where
  abbrev before : List Char → List Char
  before [] = []
  before (c ∷ cs) = let rest = before cs in if p c then [] else c ∷ rest

  abbrev after : List Char → Option (List Char)
  after [] = none
  after (c ∷ cs) = let rest = after cs in if p c then some cs else rest

abbrev digits_of : List Char → List Char
digits_of [] = []
digits_of (c ∷ cs) = let rest = digits_of cs in if is_digit c then c ∷ rest else rest

abbrev drop_zeros : List Char → List Char
drop_zeros [] = []
drop_zeros (c ∷ cs) = let rest = drop_zeros cs in if is_code b'0' c then rest else c ∷ cs

-- `trim_end_matches('0')`
abbrev trim_zeros : List Char → List Char
trim_zeros [] = []
trim_zeros (c ∷ cs) =
    let rest = trim_zeros cs in
    elim rest [ [] ↦ if is_code b'0' c then [] else c ∷ [] | d ∷ ds ↦ c ∷ d ∷ ds ]

abbrev take : ℕ → List Char → List Char
take zero cs = []
take (suc n) [] = []
take (suc n) (c ∷ cs) = c ∷ take n cs

abbrev drop : ℕ → List Char → List Char
drop zero cs = cs
drop (suc n) [] = []
drop (suc n) (c ∷ cs) = drop n cs

abbrev zeros : ℕ → String
zeros zero = ""
zeros (suc n) = String.◌++◌ "0" (zeros n)

-- The number that a run of digits spells, in front of `n`; nothing where another character stands.
abbrev read_digits : ℕ → List Char → Option ℕ
read_digits n [] = some n
read_digits n (c ∷ cs) =
    let rest = read_digits (n * 10 + (code c - b'0')) cs in if is_digit c then rest else none

abbrev i32_max : ℕ
i32_max = 2147483647

-- `parse::<i32>().ok()`
abbrev read_unsigned : List Char → Option ℕ
read_unsigned [] = none
read_unsigned (c ∷ cs) = read_digits 0 (c ∷ cs)

abbrev negated : ℕ → ℤ
negated zero = pos 0
negated (suc n) = negsuc n

abbrev read_i32 : List Char → Option ℤ
read_i32 [] = none
read_i32 (c ∷ cs) =
    if is_code b'-' c
    then elim (read_unsigned cs) [
      | none ↦ none
      | some n ↦ if leb n (suc i32_max) then some (negated n) else none
    ]
    else elim (read_unsigned (if is_code b'+' c then cs else c ∷ cs)) [
      | none ↦ none
      | some n ↦ if leb n i32_max then some (pos n) else none
    ]

-- `strip_prefix('-')`: whether the sign stands there, and the rest.
abbrev strip_minus : List Char → Bool × List Char
strip_minus [] = (false, [])
strip_minus (c ∷ cs) = if is_code b'-' c then (true, cs) else (false, c ∷ cs)

abbrev exponent_of : List Char → ℤ
exponent_of cs = elim (after is_exponent_mark cs) [
  | none ↦ pos 0
  | some p ↦ unwrap_or (read_i32 (before is_exponent_mark p)) (pos 0)
]

-- The digits behind the first, with their point.
abbrev fraction : List Char → String
fraction ds = if ltb 1 (length ds) then concat ("." ∷ of_chars (drop 1 ds) ∷ []) else ""

module _ (w : External) where
  -- `{:02}` of an exponent's magnitude.
  abbrev two_digits : ℕ → String
  two_digits n =
      let shown = w.print (number (pos_int n)) in
      if ltb n 10 then concat ("0" ∷ shown ∷ []) else shown

  abbrev scientific : String → List Char → ℤ → String
  scientific sign digits (pos e) =
      concat (sign ∷ of_chars (take 1 digits) ∷ fraction digits ∷ "e+" ∷ two_digits e ∷ [])
  scientific sign digits (negsuc e) =
      concat (sign ∷ of_chars (take 1 digits) ∷ fraction digits ∷ "e-" ∷ two_digits (suc e) ∷ [])

  -- `position` digits stand before the point.
  abbrev positional : String → List Char → ℤ → String
  positional sign digits (negsuc n) = concat (sign ∷ "0." ∷ zeros (suc n) ∷ of_chars digits ∷ [])
  positional sign digits (pos p) =
      if eqb p 0
      then concat (sign ∷ "0." ∷ of_chars digits ∷ [])
      else if leb (length digits) p
      then concat (sign ∷ of_chars digits ∷ zeros (p - length digits) ∷ ".0" ∷ [])
      else concat (sign ∷ of_chars (take p digits) ∷ "." ∷ of_chars (drop p digits) ∷ [])

  -- Python's `repr` of a float, from the shortest decimal text that serde_json prints.
  unfoldable pub python_float : String → String
  python_float s =
      let (minus, rest) = strip_minus (chars s) in
      let sign = if minus then "-" else "" in
      let mantissa = before is_exponent_mark rest in
      let whole = length (before (is_code b'.') mantissa) in
      let all_digits = digits_of mantissa in
      let leading = length all_digits - length (drop_zeros all_digits) in
      let digits = trim_zeros (drop_zeros all_digits) in
      let exponent = ◌+ℤ◌ (◌+ℤ◌ (pos whole) (negsuc leading)) (exponent_of rest) in
      elim digits [
        | [] ↦ concat (sign ∷ "0.0" ∷ [])
        | d ∷ ds ↦
            if ltb_ℤ exponent (negsuc 3) || leb_ℤ (pos 16) exponent
            then scientific sign (d ∷ ds) exponent
            else positional sign (d ∷ ds) (◌+ℤ◌ exponent (pos 1))
      ]

  unfoldable mutual
    pub canonical : Json → String
    canonical (array xs) = concat ("[" ∷ canonical_items xs ∷ "]" ∷ [])
    canonical (object fs) = concat ("{" ∷ canonical_fields fs ∷ "}" ∷ [])
    canonical (number (float b)) = python_float (w.print (number (float b)))
    canonical v = w.print v

    pub canonical_items : Items → String
    canonical_items nil = ""
    canonical_items (cons x nil) = canonical x
    canonical_items (cons x (cons y ys)) =
        concat (canonical x ∷ "," ∷ canonical_items (cons y ys) ∷ [])

    pub canonical_fields : Fields → String
    canonical_fields end = ""
    canonical_fields (field k v end) = concat (w.print (string k) ∷ ":" ∷ canonical v ∷ [])
    canonical_fields (field k v (field j u fs)) =
        concat (w.print (string k) ∷ ":" ∷ canonical v ∷ "," ∷ canonical_fields (field j u fs) ∷ [])

  unfoldable pub digest : Json → String
  digest v = w.sha256 (canonical v)
