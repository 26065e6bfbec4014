-- ===== src/Numeric/Decimal.antt =====
-- What kernel/src/python_numeric.rs normalizes a number to.
use Prim.Native.Char.{Char, code}
use clinx.Prelude.{
  ℕ, zero, suc, ◌+◌, ◌≤◌, String, Bool, true, false, not, ◌&&◌, Option, none, some, List, [], ◌∷◌,
  ◌++◌, ◌≡◌, refl, sym, ap, ◌∙◌, subst, ◌⊎◌, inl, inr, arith, All, all, leb, ltb, eqb, length,
  Bool-cases, Option-cases,
}
use clinx.Prelude.Text.{chars, of_chars, is_code}
use clinx.Prelude.Trim.{is_white, trim_chars, trim_chars_solid, chars-of_chars}
use clinx.Numeric.{
  zeros, digit_in, digit_value, digit_char, is_underscore, digits_of, push_digit, split_sign,
  badly_grouped, is_empty, starts_underscore, well_placed, signed, integer_chars, integer_text,
}

-- One of the ten decimal digits of ASCII.
pub IsDigit : Char → Type 0
IsDigit c = (n : ℕ) × (n ≤ 9) × (c ≡ digit_char n)

-- A sign or none, and 1 to 4300 digits.
pub record IsDecimal (cs : List Char) : Type 0 where
  pub sign : List Char
  pub digits : List Char
  pub whole : cs ≡ sign ++ digits
  pub signed_or_not : (sign ≡ []) ⊎ (sign ≡ "-" ∷ [])
  pub all_digits : All IsDigit digits
  pub some_digit : is_empty digits ≡ false
  pub few_digits : length digits ≤ 4300

digit_in-le : (c d : ℕ) (zs : List ℕ) → digit_in c zs ≡ some d → d ≤ 9
unfolding digit_in
digit_in-le c d [] h = ground arith
digit_in-le c d (z ∷ zs) h = elim (Bool-cases (leb z c && ltb c (z + 10))) [
  | inl within ↦ ground arith
  | inr other ↦ digit_in-le c d zs (ground arith)
]

push_digit-IsDigit :
    (c : Char) (rest : Option (List Char)) (ds : List Char)
    → push_digit (digit_value c) rest ≡ some ds
    → (d : ℕ) × (es : List Char) × (rest ≡ some es) × (ds ≡ digit_char d ∷ es) × (d ≤ 9)
unfolding digit_value
push_digit-IsDigit c none ds h = elim (Option-cases (digit_value c)) [
  | inl absent ↦ absurd (ground arith)
  | inr (d, found) ↦ absurd (ground arith)
]
push_digit-IsDigit c (some es) ds h = elim (Option-cases (digit_value c)) [
  | inl absent ↦ absurd (ground arith)
  | inr (d, found) ↦ (d, es, refl, ground arith, digit_in-le (code c) d zeros found)
]

digits_of-All : (cs ds : List Char) → digits_of cs ≡ some ds → All IsDigit ds
unfolding digits_of IsDigit
digits_of-All [] ds h = subst (All IsDigit) {x = []} (ground arith) tt
digits_of-All (c ∷ cs) ds h = elim (Bool-cases (is_underscore c)) [
  | inl skipped ↦ digits_of-All cs ds (ground arith)
  | inr kept ↦
      let (d, es, its, same, small) = push_digit-IsDigit c (digits_of cs) ds (ground arith) in
      subst (All IsDigit) (sym same) ((d, small, refl), digits_of-All cs es its)
]

digits_of-is_empty :
    (cs ds : List Char)
    → is_empty cs ≡ false
    → starts_underscore cs ≡ false
    → digits_of cs ≡ some ds
    → is_empty ds ≡ false
unfolding digits_of
digits_of-is_empty [] ds full placed h = ground arith
digits_of-is_empty (c ∷ cs) ds full placed h =
    let (d, es, _, same, _) = push_digit-IsDigit c (digits_of cs) ds (ground arith) in
    ap is_empty same

abbrev plain : ℕ → Bool
plain n =
    let c = digit_char n in
    (not (is_white c) && not (is_underscore c)) && (not (is_code 45 c) && not (is_code 43 c))

abbrev same_digit : Option ℕ → ℕ → Bool
same_digit none n = false
same_digit (some d) n = eqb d n

-- The digits are plain, and each is its own value.
plain_digit : (n : ℕ) → n ≤ 9 → (plain n && same_digit (digit_value (digit_char n)) n) ≡ true
unfolding digit_value digit_in is_white
plain_digit zero h = refl
plain_digit (suc zero) h = refl
plain_digit (suc (suc zero)) h = refl
plain_digit (suc (suc (suc zero))) h = refl
plain_digit (suc (suc (suc (suc zero)))) h = refl
plain_digit (suc (suc (suc (suc (suc zero))))) h = refl
plain_digit (suc (suc (suc (suc (suc (suc zero)))))) h = refl
plain_digit (suc (suc (suc (suc (suc (suc (suc zero))))))) h = refl
plain_digit (suc (suc (suc (suc (suc (suc (suc (suc zero)))))))) h = refl
plain_digit (suc (suc (suc (suc (suc (suc (suc (suc (suc zero))))))))) h = refl
plain_digit (suc (suc (suc (suc (suc (suc (suc (suc (suc (suc n)))))))))) h = ground arith

-- What a digit is not, and its value.
record IsPlain (c : Char) : Type 0 where
  solid : is_white c ≡ false
  no_underscore : is_underscore c ≡ false
  no_minus : is_code 45 c ≡ false
  no_plus : is_code 43 c ≡ false
  itself : (n : ℕ) × (digit_value c ≡ some n) × (digit_char n ≡ c)

IsDigit-IsPlain : (c : Char) → IsDigit c → IsPlain c
unfolding IsDigit
IsDigit-IsPlain c (n, small, same) =
    let fact = plain_digit n small in
    subst IsPlain (sym same) (record {
      solid = ground (arith, fact);
      no_underscore = ground (arith, fact);
      no_minus = ground (arith, fact);
      no_plus = ground (arith, fact);
      itself = (n, ground (arith, fact), refl);
    })

split_sign-sign : (cs : List Char) → ((split_sign cs).0 ≡ []) ⊎ ((split_sign cs).0 ≡ "-" ∷ [])
unfolding split_sign
split_sign-sign [] = inl refl
split_sign-sign (c ∷ cs) = elim (Bool-cases (is_code 45 c)) [
  | inl minus ↦ inr (rw minus refl)
  | inr other ↦ elim (Bool-cases (is_code 43 c)) [
    | inl plus ↦ inl (rw (other, plus) refl)
    | inr digit ↦ inl (rw (other, digit) refl)
  ]
]

signed-IsDecimal :
    (sign digits t : List Char)
    → (sign ≡ []) ⊎ (sign ≡ "-" ∷ [])
    → signed (sign, digits) ≡ some t
    → IsDecimal t
unfolding well_placed
signed-IsDecimal sign digits t known h = elim (Option-cases (digits_of digits)) [
  | inl absent ↦ absurd (ground arith)
  | inr (ds, found) ↦ record {
    sign = sign;
    digits = ds;
    whole = ground arith;
    signed_or_not = known;
    all_digits = digits_of-All digits ds found;
    some_digit = digits_of-is_empty digits ds (ground arith) (ground arith) found;
    few_digits = ground arith;
  }
]

integer_chars-IsDecimal : (cs t : List Char) → integer_chars cs ≡ some t → IsDecimal t
unfolding integer_chars
integer_chars-IsDecimal cs t h =
    signed-IsDecimal (split_sign (trim_chars cs)).0 (split_sign (trim_chars cs)).1 t
      (split_sign-sign (trim_chars cs)) h

-- Digits are read as they stand.
digits_of-digits : (ds : List Char) → All IsDigit ds → digits_of ds ≡ some ds
unfolding digits_of
digits_of-digits [] h = refl
digits_of-digits (c ∷ ds) (one, more) =
    let plain_c = IsDigit-IsPlain c one in
    let (n, its, back) = plain_c.itself in
    ground (arith, plain_c.no_underscore, its, ap (λ x. x ∷ ds) back, digits_of-digits ds more)

solid-digits : (ds : List Char) → All IsDigit ds → all (λ c. not (is_white c)) ds ≡ true
solid-digits [] h = refl
solid-digits (c ∷ ds) (one, more) =
    ground (arith, (IsDigit-IsPlain c one).solid, solid-digits ds more)

badly_grouped-digits : (ds : List Char) → All IsDigit ds → badly_grouped ds ≡ false
unfolding badly_grouped
badly_grouped-digits [] h = refl
badly_grouped-digits (c ∷ []) (one, more) = (IsDigit-IsPlain c one).no_underscore
badly_grouped-digits (c ∷ d ∷ ds) (one, more) =
    ground (arith, (IsDigit-IsPlain c one).no_underscore, badly_grouped-digits (d ∷ ds) more)

well_placed-digits : (ds : List Char) → All IsDigit ds → is_empty ds ≡ false → well_placed ds ≡ true
unfolding well_placed
well_placed-digits [] h full = ground arith
well_placed-digits (c ∷ ds) (one, more) full =
    ground (arith, (IsDigit-IsPlain c one).no_underscore, badly_grouped-digits (c ∷ ds) (one, more))

split_sign-digits :
    (ds : List Char) → All IsDigit ds → is_empty ds ≡ false → split_sign ds ≡ ([], ds)
unfolding split_sign
split_sign-digits [] h full = ground arith
split_sign-digits (c ∷ ds) (one, more) full =
    rw ((IsDigit-IsPlain c one).no_minus, (IsDigit-IsPlain c one).no_plus) refl

signed-digits :
    (sign ds : List Char)
    → All IsDigit ds
    → is_empty ds ≡ false
    → length ds ≤ 4300
    → signed (sign, ds) ≡ some (sign ++ ds)
signed-digits sign ds digits full few =
    ground (arith, well_placed-digits ds digits full, digits_of-digits ds digits)

IsDecimal-integer_chars : (t : List Char) → IsDecimal t → integer_chars t ≡ some t
unfolding integer_chars split_sign is_white
IsDecimal-integer_chars t d = elim d.signed_or_not [
  | inl unsigned ↦
      let whole : t ≡ d.digits = d.whole ∙ ap (λ s. s ++ d.digits) unsigned in
      ap (λ x. signed (split_sign (trim_chars x))) whole
      ∙ ap (λ x. signed (split_sign x))
          (trim_chars_solid d.digits (solid-digits d.digits d.all_digits))
      ∙ ap signed (split_sign-digits d.digits d.all_digits d.some_digit)
      ∙ signed-digits [] d.digits d.all_digits d.some_digit d.few_digits
      ∙ ap some (sym whole)
  | inr minus ↦
      let whole : t ≡ "-" ∷ d.digits = d.whole ∙ ap (λ s. s ++ d.digits) minus in
      ap (λ x. signed (split_sign (trim_chars x))) whole
      ∙ ap (λ x. signed (split_sign x))
          (trim_chars_solid ("-" ∷ d.digits) (solid-digits d.digits d.all_digits))
      ∙ signed-digits ("-" ∷ []) d.digits d.all_digits d.some_digit d.few_digits
      ∙ ap some (sym whole)
]

-- What a number is normalized to is a minus sign or none, followed by 1 to 4300 decimal digits of
-- ASCII, and is normalized to itself.
pub integer_text-IsDecimal :
    (s t : String) → integer_text s ≡ some t → IsDecimal (chars t) × (integer_text t ≡ some t)
unfolding integer_text
integer_text-IsDecimal s t h = elim (Option-cases (integer_chars (chars s))) [
  | inl refused ↦ absurd (ground arith)
  | inr (cs, found) ↦
      let decimal = integer_chars-IsDecimal (chars s) cs found in
      let same : of_chars cs ≡ t = ground arith in
      subst (λ x. IsDecimal (chars x) × (integer_text x ≡ some x)) same
        (
          subst IsDecimal (sym (chars-of_chars cs)) decimal,
          ground (
            arith,
            chars-of_chars cs,
            IsDecimal-integer_chars cs decimal,
            ap integer_chars (chars-of_chars cs),
          ),
        )
]
