-- ===== src/Json.antt =====
-- serde_json's `Value` as kernel/src uses it. A map holds its members in key order, as the
-- program's build has it (no `preserve_order`); a float is its IEEE 754 bit pattern.
pub mod Access
pub mod Equality
pub mod Decode
pub mod Write
use clinx.Prelude.{ℕ, String, Bool, List, [], ◌∷◌}

-- `serde_json::Number`: an unsigned integer, a negative one (`neg_int n` is -(n + 1)), a float.
pub data Number : Type 0 where
  pos_int : ℕ → Number
  neg_int : ℕ → Number
  float : ℕ → Number

mutual
  pub data Json : Type 0 where
    null : Json
    bool : Bool → Json
    number : Number → Json
    string : String → Json
    array : Items → Json
    object : Fields → Json

  pub data Items : Type 0 where
    nil : Items
    cons : Json → Items → Items

  pub data Fields : Type 0 where
    end : Fields
    field : String → Json → Fields → Fields

-- The members of an array and of a map, for the loops over them.
abbrev pub to_list : Items → List Json
to_list nil = []
to_list (cons x xs) = x ∷ to_list xs

abbrev pub of_list : List Json → Items
of_list [] = nil
of_list (x ∷ xs) = cons x (of_list xs)

-- The members of a map, in key order, with their keys.
abbrev pub entries : Fields → List (String × Json)
entries end = []
entries (field k v fs) = (k, v) ∷ entries fs

abbrev pub names : Fields → List String
names end = []
names (field k v fs) = k ∷ names fs

abbrev pub fields_of : List (String × Json) → Fields
fields_of [] = end
fields_of ((k, v) ∷ fs) = field k v (fields_of fs)
