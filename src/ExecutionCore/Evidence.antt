-- ===== src/ExecutionCore/Evidence.antt =====
-- The checks on evidence that the guards share: exact key sets, typed values, Python's equality of
-- numbers, identities, and commit bundles. `fields(s)` splits a constant at its spaces: here the
-- constants stand split.
pub mod Identities
use clinx.Prelude.{
  ℕ, String, Bool, true, false, not, ◌&&◌, ◌||◌, Option, none, some, List, [], ◌∷◌, ◌==◌, eqb, suc,
  length, all, any, contains, is_some_and, filter_some, if◌then◌else◌,
}
use clinx.Prelude.Int.{ℤ, pos, negsuc, eqb_ℤ, ltb_ℤ}
use clinx.Json.{
  Number, pos_int, neg_int, float, Json, null, bool, number, string, array, object, Items, nil,
  cons, Fields, end, field, names, entries,
}
use clinx.Json.Access.{
  lookup, get?, ◌!◌, as_str, as_i64, as_array, as_object, is_string, is_text, is_empty_array,
}
use clinx.Json.Equality.{items_len, fields_len, json_eq}
use clinx.External.{External}

-- Equality of two sets of texts.
unfoldable pub same_names : List String → List String → Bool
same_names xs ys = all (contains ys) xs && all (contains xs) ys

-- `keys(v, s)`
unfoldable pub keys : Json → List String → Bool
unfolding as_object
keys v s = is_some_and (as_object v) (λ o. same_names (names o) s)

-- `enum Numeric` of `py_eq`, and its closure `numeric`.
pub data Numeric : Type 0 where
  integer : ℤ → Numeric
  floating : ℕ → Numeric

unfoldable pub numeric : Json → Option Numeric
numeric (bool true) = some (integer (pos 1))
numeric (bool false) = some (integer (pos 0))
numeric (number (pos_int n)) = some (integer (pos n))
numeric (number (neg_int n)) = some (integer (negsuc n))
numeric (number (float b)) = some (floating b)
numeric _ = none

module _ (w : External) where
  -- The last match of `py_eq`: `none` is its catch-all `_ => a == b`.
  unfoldable pub numeric_eq : Option Numeric → Option Numeric → Option Bool
  numeric_eq (some (integer a)) (some (integer b)) = some (eqb_ℤ a b)
  numeric_eq (some (floating a)) (some (floating b)) = some (w.float_eq a b)
  numeric_eq (some (floating f)) (some (integer i)) = some (w.is_whole f && eqb_ℤ (w.to_int f) i)
  numeric_eq (some (integer i)) (some (floating f)) = some (w.is_whole f && eqb_ℤ (w.to_int f) i)
  numeric_eq _ _ = none

  unfoldable pub scalar_eq : Json → Json → Bool
  unfolding numeric_eq numeric json_eq
  scalar_eq a b = elim (numeric_eq (numeric a) (numeric b)) [ none ↦ json_eq w a b | some r ↦ r ]

  unfoldable mutual
    pub py_eq : Json → Json → Bool
    py_eq (object fs) (object gs) = eqb (fields_len fs) (fields_len gs) && py_eq_fields fs gs
    py_eq (array xs) (array ys) = eqb (items_len xs) (items_len ys) && py_eq_items xs ys
    py_eq a b = scalar_eq a b

    -- `a.iter().zip(b).all(…)`
    pub py_eq_items : Items → Items → Bool
    py_eq_items (cons x xs) (cons y ys) = py_eq x y && py_eq_items xs ys
    py_eq_items _ _ = true

    pub py_eq_fields : Fields → Fields → Bool
    py_eq_fields end gs = true
    py_eq_fields (field k v fs) gs =
        elim (lookup k gs) [ none ↦ false | some u ↦ py_eq v u ] && py_eq_fields fs gs

  -- `num`: a finite number as f64.
  unfoldable pub as_f64 : Json → Option ℕ
  as_f64 (number (pos_int n)) = some (w.of_int (pos n))
  as_f64 (number (neg_int n)) = some (w.of_int (negsuc n))
  as_f64 (number (float b)) = some b
  as_f64 _ = none

  unfoldable pub num : Json → Option ℕ
  unfolding as_f64
  num v = filter_some (as_f64 v) w.is_finite

  unfoldable pub truth : Json → Bool
  unfolding as_f64
  truth null = false
  truth (bool b) = b
  truth (string s) = not (s == "")
  truth (array nil) = false
  truth (array (cons x xs)) = true
  truth (object end) = false
  truth (object (field k v fs)) = true
  truth (number n) = is_some_and (as_f64 (number n)) (λ x. not (w.float_eq x (w.of_int (pos 0))))

-- `text`: a non-empty text.
unfoldable pub text : Json → Bool
text (string s) = not (s == "")
text _ = false

-- `int(v).is_some_and(|n| n > k)`
unfoldable pub int_above : ℤ → Json → Bool
int_above k v = is_some_and (as_i64 v) (λ n. ltb_ℤ k n)

abbrev pub binding_names : List String
binding_names =
    "execution_id" ∷ "attempt_id" ∷ "provider_session_id" ∷ "thread_id" ∷ "turn_id" ∷ "operation_id"
    ∷ "generation" ∷ []

abbrev pub owner_names : List String
owner_names =
    "execution_id" ∷ "attempt_id" ∷ "assignment_id" ∷ "worker_id" ∷ "incarnation_id"
    ∷ "resource_key" ∷ "resource_epoch" ∷ []

unfoldable pub identity_member : String × Json → Bool
unfolding int_above text
identity_member (k, v) =
    if k == "generation" || k == "resource_epoch" then int_above (pos 0) v else text v

-- `identity`: exactly the named members, each an id, a positive generation or a positive epoch.
unfoldable pub identity : Json → List String → Bool
unfolding keys identity_member as_object
identity v s = keys v s && is_some_and (as_object v) (λ o. all identity_member (entries o))

text_names : List Json → List String
text_names [] = []
text_names (string s ∷ xs) = s ∷ text_names xs
text_names (x ∷ xs) = text_names xs

-- `bundle`: the commit bundle is the named set, each name once.
unfoldable pub bundle : Json → List String → Bool
unfolding text_names
bundle f s =
    is_some_and (as_array (f ! "commit_bundle"))
      (λ a. eqb (length a) (length s) && (all is_string a && same_names (text_names a) s))

-- `outcome`: one of the four terminal outcomes of an execution.
unfoldable pub outcome : Json → Bool
outcome s =
    is_text s "SUCCEEDED" || is_text s "BLOCKED" || is_text s "FAILED" || is_text s "CANCELLED"
