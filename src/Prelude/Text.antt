-- ===== src/Prelude/Text.antt =====
-- Texts as characters and as the bytes of their UTF-8, splitting at a character, and sorted lists
-- of texts without repetitions.
use Prim.Native.Nat.{ℕ, ◌+◌, ◌/◌, ◌%◌, Ordering}
use Prim.Native.Char.{Char, code}
use Prim.Native.String
use Prim.Native.String.{String, compare}
use mathlib.Core.Bool.{Bool}
use mathlib.Core.List.{List, [], ◌∷◌, ◌++◌}
use text.Mathlib.Text.{◌==◌}
use clinx.Prelude.Tests.{ltb, eqb, if◌then◌else◌}

abbrev pub chars : String → List Char
chars String.[] = []
chars (String.◌∷◌ c s) = c ∷ chars s

abbrev pub of_chars : List Char → String
of_chars [] = ""
of_chars (c ∷ cs) = String.◌∷◌ c (of_chars cs)

abbrev pub concat : List String → String
concat [] = ""
concat (s ∷ ss) = String.◌++◌ s (concat ss)

abbrev pub is_code : ℕ → Char → Bool
is_code n c = eqb (code c) n

-- The UTF-8 of a code point, and of a text (`as_bytes`).
abbrev utf8 : ℕ → List ℕ
utf8 n =
    if ltb n 0x80
    then n ∷ []
    else if ltb n 0x800
    then (0xC0 + n / 0x40) ∷ (0x80 + n % 0x40) ∷ []
    else if ltb n 0x10000
    then (0xE0 + n / 0x1000) ∷ (0x80 + n / 0x40 % 0x40) ∷ (0x80 + n % 0x40) ∷ []
    else (0xF0 + n / 0x40000)
      ∷ (0x80 + n / 0x1000 % 0x40)
      ∷ (0x80 + n / 0x40 % 0x40)
      ∷ (0x80 + n % 0x40)
      ∷ []

abbrev pub bytes : String → List ℕ
bytes String.[] = []
bytes (String.◌∷◌ c s) = utf8 (code c) ++ bytes s

-- `split(c)`: the part so far stands in front of the parts of the rest.
abbrev push_char : Char → List String → List String
push_char c [] = String.◌∷◌ c "" ∷ []
push_char c (p ∷ ps) = String.◌∷◌ c p ∷ ps

abbrev split_chars : ℕ → List Char → List String
split_chars n [] = "" ∷ []
split_chars n (c ∷ cs) =
    let rest = split_chars n cs in if is_code n c then "" ∷ rest else push_char c rest

abbrev pub split : ℕ → String → List String
split n s = split_chars n (chars s)

-- `sort` and `dedup` on texts.
abbrev insert_text : String → List String → List String
insert_text s [] = s ∷ []
insert_text s (t ∷ ts) =
    let rest = insert_text s ts in
    elim (compare s t) [
      | Ordering.gt ↦ t ∷ rest
      | Ordering.eq ↦ s ∷ t ∷ ts
      | Ordering.lt ↦ s ∷ t ∷ ts
    ]

unfoldable pub sort_texts : List String → List String
sort_texts [] = []
sort_texts (s ∷ ss) = insert_text s (sort_texts ss)

unfoldable pub dedup : List String → List String
dedup [] = []
dedup (s ∷ ss) =
    let rest = dedup ss in
    elim rest [ [] ↦ s ∷ [] | t ∷ ts ↦ if s == t then t ∷ ts else s ∷ t ∷ ts ]
