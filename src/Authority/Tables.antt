-- ===== src/Authority/Tables.antt =====
-- The tables of kernel/src/authority_store.rs that leases stand in, and how the members of a request
-- are read. A stored canonical text stands as the value that it is parsed to.
use Prim.Native.String
use Prim.Native.String.{len}
use clinx.Prelude.{
  ◌-◌, String, Bool, true, false, not, ◌&&◌, Option, none, some, List, [], ◌∷◌, ◌==◌, leb, any,
  is_some, filter_some, if◌then◌else◌,
}
use clinx.Prelude.Int.{ℤ, pos, negsuc, ltb_ℤ, leb_ℤ, eqb_ℤ, ◌+ℤ◌, i64_max, u64_max}
use clinx.Prelude.Results.{Result, ok, err}
use clinx.Json.{pos_int, neg_int, Json, number}
use clinx.Json.Access.{◌!◌, as_str, as_i64}

abbrev pub max_lease_ms : ℤ
max_lease_ms = pos 120000

abbrev pub Stored : Type 0 → Type 0
Stored A = Result String A

-- Rows of the tables.
pub data LeaseState : Type 0 where
  active : LeaseState
  released : LeaseState

pub record Lease : Type 0 where
  pub resource : String
  pub epoch : ℤ
  pub claim_id : String
  pub request_hash : String
  pub owner : Json
  pub capability : String
  pub boot : String
  pub expires_ms : ℤ
  pub claim_expires_ms : ℤ
  pub state : LeaseState

pub record Renewal : Type 0 where
  pub resource : String
  pub epoch : ℤ
  pub operation_id : String
  pub request_hash : String
  pub receipt : Json

-- The tables `resources`, `leases` and `renewals`, the keys of `commits` (resource, epoch and
-- command) and the rows of `outbox` by their id.
pub record Tables : Type 0 where
  pub resources : List (String × ℤ)
  pub leases : List Lease
  pub renewals : List Renewal
  pub commits : List (String × ℤ × String)
  pub outbox : List (String × Json)

abbrev pub no_rows : Tables
no_rows = record { resources = []; leases = []; renewals = []; commits = []; outbox = [] }

abbrev pub is_active : LeaseState → Bool
is_active active = true
is_active released = false

abbrev pub epoch_of : String → List (String × ℤ) → Option ℤ
epoch_of r [] = none
epoch_of r ((s, e) ∷ rows) = let rest = epoch_of r rows in if s == r then some e else rest

-- `ON CONFLICT(resource) DO UPDATE SET epoch=excluded.epoch`
abbrev pub put_epoch : String → ℤ → List (String × ℤ) → List (String × ℤ)
put_epoch r e [] = (r, e) ∷ []
put_epoch r e ((s, d) ∷ rows) =
    let rest = put_epoch r e rows in if s == r then (s, e) ∷ rows else (s, d) ∷ rest

abbrev pub at_key : String → ℤ → Lease → Bool
at_key r e l = l.resource == r && eqb_ℤ l.epoch e

unfoldable pub find_lease : (Lease → Bool) → List Lease → Option Lease
find_lease p [] = none
find_lease p (l ∷ ls) = let rest = find_lease p ls in if p l then some l else rest

-- The first row with the key changed.
unfoldable pub update_lease : String → ℤ → (Lease → Lease) → List Lease → List Lease
update_lease r e f [] = []
update_lease r e f (l ∷ ls) =
    let rest = update_lease r e f ls in if at_key r e l then f l ∷ ls else l ∷ rest

-- `INSERT INTO leases`, whose primary key is the resource with the epoch.
unfoldable pub insert_lease : Lease → List Lease → Stored (List Lease)
unfolding find_lease
insert_lease l ls =
    if is_some (find_lease (at_key l.resource l.epoch) ls) then err "STORAGE_ERROR" else ok (l ∷ ls)

abbrev pub renewal_key : String → ℤ → String → Renewal → Bool
renewal_key r e op n = n.resource == r && (eqb_ℤ n.epoch e && n.operation_id == op)

abbrev pub find_renewal : (Renewal → Bool) → List Renewal → Option Renewal
find_renewal p [] = none
find_renewal p (n ∷ ns) = let rest = find_renewal p ns in if p n then some n else rest

abbrev pub has_commit : String → ℤ → String → List (String × ℤ × String) → Bool
has_commit r e op rows = any (λ c. c.0 == r && (eqb_ℤ c.1 e && c.2 == op)) rows

-- `json!(n)` of an `i64`.
abbrev pub int_json : ℤ → Json
int_json (pos n) = number (pos_int n)
int_json (negsuc n) = number (neg_int n)

-- `a + b` on `i64`, where `b` is positive: the sum wraps around above.
abbrev pub wrap_i64 : ℤ → ℤ
wrap_i64 (pos n) = if leb n i64_max then pos n else negsuc (u64_max - n)
wrap_i64 (negsuc n) = negsuc n

abbrev pub ends_at : ℤ → ℤ → ℤ
ends_at now duration = wrap_i64 (◌+ℤ◌ now duration)

-- `text(v, key)`
unfoldable pub text_member : Json → String → Stored String
text_member v key = elim (filter_some (as_str (v ! key)) (λ s. not (s == "") && leb (len s) 256)) [
  | none ↦ err (String.◌++◌ "INVALID_" key)
  | some s ↦ ok s
]

abbrev pub int_member : Json → String → (ℤ → Bool) → String → Stored ℤ
int_member v key p e = elim (filter_some (as_i64 (v ! key)) p) [ none ↦ err e | some n ↦ ok n ]

abbrev pub lease_length : ℤ → Bool
lease_length n = ltb_ℤ (pos 0) n && leb_ℤ n max_lease_ms
