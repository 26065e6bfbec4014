-- ===== src/Json/Decode.antt =====
-- serde's derived `Deserialize` on a `Value`: the fields of a struct from an object, by name, or
-- from an array, in their order; and the readers of the fields' types.
use clinx.Prelude.{String, List, [], ◌∷◌, Option, none, some}
use clinx.Json.{Json, array, object, Items, nil, cons, Fields, end, field, to_list}
use clinx.Json.Access.{as_str}

-- The fields of an array in their order; `none` where it is too long.
unfoldable pub zip_fields : List String → Items → Option Fields
zip_fields ks nil = some end
zip_fields [] (cons x xs) = none
zip_fields (k ∷ ks) (cons x xs) = elim (zip_fields ks xs) [
  | none ↦ none
  | some fs ↦ some (field k x fs)
]

-- The fields of a struct with these names, in the order of their declaration.
unfoldable pub struct_fields : List String → Json → Option Fields
unfolding zip_fields
struct_fields ks (object fs) = some fs
struct_fields ks (array xs) = zip_fields ks xs
struct_fields ks _ = none

abbrev both_texts : Option String → Option (List String) → Option (List String)
both_texts (some s) (some ss) = some (s ∷ ss)
both_texts _ _ = none

unfoldable pub texts_of : List Json → Option (List String)
texts_of [] = some []
texts_of (v ∷ vs) = both_texts (as_str v) (texts_of vs)

-- `Vec<String>`
unfoldable pub as_texts : Json → Option (List String)
unfolding texts_of
as_texts (array xs) = texts_of (to_list xs)
as_texts _ = none

-- A field with a default, and one without.
abbrev pub defaulted : {A : Type 0} → (Json → Option A) → A → Option Json → Option A
defaulted read d none = some d
defaulted read d (some v) = read v

abbrev pub required : {A : Type 0} → (Json → Option A) → Option Json → Option A
required read none = none
required read (some v) = read v
