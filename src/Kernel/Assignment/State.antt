-- ===== src/Kernel/Assignment/State.antt =====
-- Shape of an assignment's state in kernel/src/lib.rs: the members that it must have, its objects
-- and its versions.
pub mod Checks
pub mod Clean
pub mod Laws
use Prim.Native.String
use clinx.Prelude.{
  ℕ, suc, ◌+◌, String, Bool, true, false, not, ◌&&◌, ◌||◌, Option, none, some, List, [], ◌∷◌, ◌++◌,
  ◌==◌, eqb, ltb, all, contains, is_some, is_some_and, unwrap_or, if◌then◌else◌,
}
use clinx.Prelude.Results.{Result, ok, err, ◌>>=◌, ◌>>◌, ensure}
use clinx.Prelude.Text.{sort_texts, dedup}
use clinx.Json.{Json, null, number, string, object, pos_int, Fields, end, names, fields_of}
use clinx.Json.Access.{lookup, insert, get?, as_str, as_u64, as_object, is_null, is_text}
use clinx.Json.Equality.{json_eq}
use clinx.External.{External}
use clinx.Kernel.{Checked}
use clinx.Kernel.Timestamp.{valid_timestamp}
use clinx.Kernel.Required.{path_value}
use clinx.Kernel.Assignment.{RuntimeEvent, value_text, value_integer}
use clinx.Kernel.Assignment.Legacy.{legacy_state, lifecycle_of}

abbrev pub assignment_fields : List String
assignment_fields =
    "assignment_id" ∷ "attempt_id" ∷ "worker_id" ∷ "incarnation_id" ∷ "resource_key"
    ∷ "resource_epoch" ∷ "lifecycle" ∷ "version" ∷ "lease_expires_at" ∷ "created_at" ∷ "released_at"
    ∷ []

abbrev pub allocation_fields : List String
allocation_fields =
    "allocation_id" ∷ "assignment_id" ∷ "attempt_id" ∷ "worker_id" ∷ "incarnation_id"
    ∷ "resource_key" ∷ "resource_epoch" ∷ "lifecycle" ∷ "version" ∷ "expires_at" ∷ "release_reason"
    ∷ []

abbrev pub attempt_fields : List String
attempt_fields = "attempt_id" ∷ "lifecycle" ∷ "version" ∷ []

abbrev pub recovery_fields : List String
recovery_fields = "assignment_id" ∷ "state" ∷ "reason" ∷ "attempts" ∷ []

abbrev pub identity_fields : List String
identity_fields =
    "assignment_id" ∷ "attempt_id" ∷ "worker_id" ∷ "incarnation_id" ∷ "resource_key"
    ∷ "resource_epoch" ∷ []

-- The objects of a state under check.
pub record Parts : Type 0 where
  pub state : Fields
  pub assignment : Fields
  pub allocation : Fields
  pub attempt : Fields
  pub recovery : Json

abbrev member_object : Fields → String → Checked Fields
member_object state key = elim (lookup key state) [
  | none ↦ err "ASSIGNMENT_STATE_INVALID"
  | some v ↦ elim (as_object v) [ none ↦ err "ASSIGNMENT_STATE_INVALID" | some fs ↦ ok fs ]
]

-- `mapping.get(key).and_then(Value::as_str) == Some(text)`
abbrev pub has_text : Fields → String → String → Bool
has_text mapping key text = is_some_and (lookup key mapping) (λ v. is_text v text)

-- `payload` carries no state of its own.
unfoldable pub is_legacy : Fields → Bool
is_legacy payload = elim (lookup "state" payload) [ none ↦ true | some v ↦ is_null v ]

unfoldable pub parts_of : Json → Checked Parts
parts_of raw = do
  state ← elim (as_object raw) [ none ↦ err "INVALID_INPUT" | some fs ↦ ok fs ]
  _ ←
      ensure
        (is_some_and (lookup "state_version" state) (λ v. is_some_and (as_u64 v) (λ n. eqb n 1)))
        "ASSIGNMENT_STATE_INVALID"
  assignment ← member_object state "assignment"
  allocation ← member_object state "allocation"
  attempt ← member_object state "attempt"
  ok (record {
    state = state;
    assignment = assignment;
    allocation = allocation;
    attempt = attempt;
    recovery = unwrap_or (lookup "recovery" state) null;
  })

-- All keys are there.
unfoldable pub complete : List String → Fields → Checked (Unit {0})
complete keys mapping =
    ensure (all (λ k. is_some (lookup k mapping)) keys) "ASSIGNMENT_STATE_INVALID"

abbrev pub texts : Fields → List String → Checked (Unit {0})
texts mapping [] = ok tt
texts mapping (k ∷ ks) = value_text mapping k >>= λ _. texts mapping ks

pub record Versions : Type 0 where
  pub epoch : ℕ
  pub assignment : ℕ
  pub allocation : ℕ
  pub attempt : ℕ

unfoldable pub versions_of : Parts → Checked Versions
versions_of p = do
  epoch ← value_integer p.assignment "resource_epoch"
  assignment ← value_integer p.assignment "version"
  allocation ← value_integer p.allocation "version"
  attempt ← value_integer p.attempt "version"
  _ ← ensure (not (eqb epoch 0)) "ASSIGNMENT_STATE_INVALID"
  ok (record { epoch = epoch; assignment = assignment; allocation = allocation; attempt = attempt })
