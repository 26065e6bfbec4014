-- ===== src/Json/Access.antt =====
-- Reading and writing members: `get`, indexing by `v["k"]`, `insert`, `remove`, and the typed views
-- `as_str`, `as_i64`, `as_u64`, `as_bool`, `as_array`, `as_object`.
use Prim.Native.Nat.{Ordering}
use Prim.Native.String.{compare}
use clinx.Prelude.{
  ℕ, String, Bool, true, false, List, Option, none, some, ◌==◌, ◌≡◌, refl, eq_iff, arith, leb,
  if◌then◌else◌,
}
use clinx.Prelude.Int.{ℤ, pos, negsuc, i64_max}
use clinx.Json.{
  Number, pos_int, neg_int, float, Json, null, bool, number, string, array, object, Items, Fields,
  end, field, to_list,
}

unfoldable pub lookup : String → Fields → Option Json
lookup k end = none
lookup k (field j v fs) = if j == k then some v else lookup k fs

-- `BTreeMap::insert`: members stay in key order.
unfoldable pub insert : String → Json → Fields → Fields
insert k v end = field k v end
insert k v (field j w fs) =
    let rest = insert k v fs in
    elim (compare k j) [
      | Ordering.lt ↦ field k v (field j w fs)
      | Ordering.eq ↦ field k v fs
      | Ordering.gt ↦ field j w rest
    ]

unfoldable pub remove : String → Fields → Fields
remove k end = end
remove k (field j w fs) = let rest = remove k fs in if j == k then fs else field j w rest

-- `v.get("k")`
unfoldable pub get? : Json → String → Option Json
get? (object fs) k = lookup k fs
get? _ k = none

-- `v["k"]`, which is `null` where there is no such member.
infixl 80 ◌!◌
unfoldable pub ◌!◌ : Json → String → Json
unfolding get?
v ! k = elim (get? v k) [ none ↦ null | some w ↦ w ]

-- `v["k"] = w` on an object.
unfoldable pub put : String → Json → Json → Json
put k w (object fs) = object (insert k w fs)
put k w v = v

unfoldable pub as_str : Json → Option String
as_str (string s) = some s
as_str _ = none

unfoldable pub as_bool : Json → Option Bool
as_bool (bool b) = some b
as_bool _ = none

unfoldable pub as_array : Json → Option (List Json)
as_array (array xs) = some (to_list xs)
as_array _ = none

unfoldable pub as_object : Json → Option Fields
as_object (object fs) = some fs
as_object _ = none

unfoldable pub is_null : Json → Bool
is_null null = true
is_null _ = false

unfoldable pub is_object : Json → Bool
is_object (object fs) = true
is_object _ = false

unfoldable pub is_array : Json → Bool
is_array (array xs) = true
is_array _ = false

unfoldable pub is_string : Json → Bool
is_string (string s) = true
is_string _ = false

unfoldable pub is_number : Json → Bool
is_number (number n) = true
is_number _ = false

abbrev int_of : Number → Option ℤ
int_of (pos_int n) = if leb n i64_max then some (pos n) else none
int_of (neg_int n) = some (negsuc n)
int_of (float b) = none

unfoldable pub as_i64 : Json → Option ℤ
as_i64 (number n) = int_of n
as_i64 _ = none

unfoldable pub as_u64 : Json → Option ℕ
as_u64 (number (pos_int n)) = some n
as_u64 _ = none

-- `v == "text"`, `v == true` and `v == 3`: serde_json's comparisons with a literal.
unfoldable pub is_text : Json → String → Bool
is_text (string s) t = s == t
is_text _ t = false

unfoldable pub is_true : Json → Bool
is_true (bool b) = b
is_true _ = false

unfoldable pub is_false : Json → Bool
is_false (bool true) = false
is_false (bool false) = true
is_false _ = false

-- `v == json!([])`
unfoldable pub is_empty_array : Json → Bool
is_empty_array (array Items.nil) = true
is_empty_array _ = false

pub is_text_iff : (v : Json) (t : String) → is_text v t ≡ true → v ≡ string t
unfolding is_text
is_text_iff (string s) t h = ground (arith, eq_iff s t)
is_text_iff (bool b) t h = ground arith
is_text_iff _ t h = ground arith

pub !-lookup : (o : Fields) (k : String) (v : Json) → lookup k o ≡ some v → object o ! k ≡ v
unfolding ◌!◌
!-lookup o k v h = ground arith

pub lookup-insert :
    (k j : String) (v : Json) (fs : Fields)
    → lookup j (insert k v fs) ≡ (if k == j then some v else lookup j fs)
unfolding lookup insert
lookup-insert k j v end = refl
lookup-insert k j v (field i u fs) =
    ground (arith, eq_iff k i, eq_iff k j, eq_iff i j, lookup-insert k j v fs)

pub !-insert :
    (k j : String) (v : Json) (fs : Fields)
    → object (insert k v fs) ! j ≡ (if k == j then v else object fs ! j)
unfolding ◌!◌
!-insert k j v fs = ground (arith, lookup-insert k j v fs)
