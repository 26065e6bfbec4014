-- ===== src/Json/Write.antt =====
-- Writing a member by an index, `value[k] = v`.
use clinx.Prelude.{String, false, ◌≡◌, arith, ◌==◌, eq_refl}
use clinx.Prelude.Results.{Result, ok, err}
use clinx.Json.{Json, null, object, end, field}
use clinx.Json.Access.{lookup, insert, get?, ◌!◌, lookup-insert}

-- Null becomes an object, and anything else but an object is out of place.
abbrev pub set_member : String → Json → Json → Result String Json
set_member k v (object fs) = ok (object (insert k v fs))
set_member k v null = ok (object (field k v end))
set_member k v other = err "PANIC"

pub set_member-ne :
    (k j : String) (v p q : Json) → (k == j) ≡ false → set_member k v p ≡ ok q → q ! j ≡ p ! j
unfolding ◌!◌ get? lookup
set_member-ne k j v (object fs) q other h = ground (arith, lookup-insert k j v fs)
set_member-ne k j v null q other h = ground arith
set_member-ne k j v p q other h = ground arith

pub set_member-eq : (k : String) (v p q : Json) → set_member k v p ≡ ok q → q ! k ≡ v
unfolding ◌!◌ get? lookup
set_member-eq k v (object fs) q h = ground (arith, lookup-insert k k v fs, eq_refl k)
set_member-eq k v null q h = ground (arith, eq_refl k)
set_member-eq k v p q h = ground arith
