-- ===== src/Json/Equality.antt =====
-- serde_json's `==` on values, with IEEE equality of floats.
use clinx.Prelude.{◌≡◌, eq_iff, arith, ℕ, String, Bool, true, false, ◌&&◌, ◌==◌, eqb, suc}
use clinx.Json.{
  Number, pos_int, neg_int, float, Json, null, bool, number, string, array, object, Items, nil,
  cons, Fields, end, field,
}
use clinx.External.{External}

abbrev pub items_len : Items → ℕ
items_len nil = 0
items_len (cons x xs) = suc (items_len xs)

abbrev pub fields_len : Fields → ℕ
fields_len end = 0
fields_len (field k v fs) = suc (fields_len fs)

module _ (w : External) where
  abbrev number_eq : Number → Number → Bool
  number_eq (pos_int a) (pos_int b) = eqb a b
  number_eq (neg_int a) (neg_int b) = eqb a b
  number_eq (float a) (float b) = w.float_eq a b
  number_eq _ _ = false

  abbrev bool_eq : Bool → Bool → Bool
  bool_eq true b = b
  bool_eq false true = false
  bool_eq false false = true

  -- `a == b` on `Value`.
  unfoldable mutual
    pub json_eq : Json → Json → Bool
    json_eq null null = true
    json_eq (bool a) (bool b) = bool_eq a b
    json_eq (number a) (number b) = number_eq a b
    json_eq (string a) (string b) = a == b
    json_eq (array xs) (array ys) = items_eq xs ys
    json_eq (object fs) (object gs) = fields_eq fs gs
    json_eq _ _ = false

    pub items_eq : Items → Items → Bool
    items_eq nil nil = true
    items_eq (cons x xs) (cons y ys) = json_eq x y && items_eq xs ys
    items_eq _ _ = false

    pub fields_eq : Fields → Fields → Bool
    fields_eq end end = true
    fields_eq (field k v fs) (field j u gs) = k == j && (json_eq v u && fields_eq fs gs)
    fields_eq _ _ = false

pub json_eq-string :
    (w : External) (v : Json) (t : String) → json_eq w v (string t) ≡ true → v ≡ string t
unfolding json_eq
json_eq-string w (string s) t h = ground (arith, eq_iff s t)
json_eq-string w null t h = ground arith
json_eq-string w _ t h = ground arith
