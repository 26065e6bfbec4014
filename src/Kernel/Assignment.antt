-- ===== src/Kernel/Assignment.antt =====
-- Assignment streams in kernel/src/lib.rs: the event envelope, the lifecycle that each type of event
-- leads to, and the readers of the members of a state. An `unwrap` that the code relies on is the
-- error "PANIC".
pub mod Legacy
pub mod State
pub mod Replay
pub mod Stream
use Prim.Native.Nat.{Ordering}
use Prim.Native.String.{compare}
use clinx.Prelude.{
  ℕ, String, Bool, true, false, ◌&&◌, ◌||◌, Option, none, some, List, [], ◌∷◌, ◌==◌, ltb, all,
  contains, is_none_or, if◌then◌else◌,
}
use clinx.Prelude.Results.{Result, ok, err, ◌>>=◌, ◌>>◌, ensure}
use clinx.Json.{Json, null, string, array, object, Items, nil, cons, Fields, names}
use clinx.Json.Decode.{zip_fields}
use clinx.Json.Access.{lookup, as_str, as_u64, is_null}
use clinx.External.{External}
use clinx.Kernel.{Checked, max_safe_integer}

abbrev pub event_family : String
event_family = "RUNTIME_WORKER_V1"

abbrev pub max_events : ℕ
max_events = 1024

pub record RuntimeEvent : Type 0 where
  pub event_id : String
  pub stream_type : String
  pub stream_id : String
  pub sequence : ℕ
  pub event_family : String
  pub event_type : String
  pub schema_version : ℕ
  pub occurred_at : String
  pub recorded_at : String
  pub payload : Json
  pub payload_hash : String
  pub global_position : Option ℕ

-- `serde_json::from_value` on the derived `Deserialize`: an object without unknown fields, or an
-- array of the fields in their order; the last field may be left out.
abbrev event_fields : List String
event_fields =
    "event_id" ∷ "stream_type" ∷ "stream_id" ∷ "sequence" ∷ "event_family" ∷ "event_type"
    ∷ "schema_version" ∷ "occurred_at" ∷ "recorded_at" ∷ "payload" ∷ "payload_hash"
    ∷ "global_position" ∷ []

abbrev need : {A : Type 0} → Option A → Checked A
need none = err "INVALID_INPUT"
need (some a) = ok a

abbrev text_field : Option Json → Checked String
text_field none = err "INVALID_INPUT"
text_field (some v) = need (as_str v)

abbrev integer_field : Option Json → Checked ℕ
integer_field none = err "INVALID_INPUT"
integer_field (some v) = need (as_u64 v)

abbrev position_of : Json → Checked (Option ℕ)
position_of v = if is_null v then ok none else (need (as_u64 v) >>= λ n. ok (some n))

abbrev position_field : Option Json → Checked (Option ℕ)
position_field none = ok none
position_field (some v) = position_of v

-- An event from what its fields, by their names, hold.
unfoldable pub event_from : (String → Option Json) → Checked RuntimeEvent
event_from at = do
  event_id ← text_field (at "event_id")
  stream_type ← text_field (at "stream_type")
  stream_id ← text_field (at "stream_id")
  sequence ← integer_field (at "sequence")
  family ← text_field (at "event_family")
  event_type ← text_field (at "event_type")
  schema_version ← integer_field (at "schema_version")
  occurred_at ← text_field (at "occurred_at")
  recorded_at ← text_field (at "recorded_at")
  payload ← need (at "payload")
  payload_hash ← text_field (at "payload_hash")
  global_position ← position_field (at "global_position")
  ok (record {
    event_id = event_id;
    stream_type = stream_type;
    stream_id = stream_id;
    sequence = sequence;
    event_family = family;
    event_type = event_type;
    schema_version = schema_version;
    occurred_at = occurred_at;
    recorded_at = recorded_at;
    payload = payload;
    payload_hash = payload_hash;
    global_position = global_position;
  })

unfoldable pub decode_event : Json → Checked RuntimeEvent
unfolding event_from zip_fields
decode_event (object fs) =
    if all (contains event_fields) (names fs)
    then event_from (λ k. lookup k fs)
    else err "INVALID_INPUT"
decode_event (array xs) = elim (zip_fields event_fields xs) [
  | none ↦ err "INVALID_INPUT"
  | some fs ↦ event_from (λ k. lookup k fs)
]
decode_event _ = err "INVALID_INPUT"

unfoldable pub event_lifecycle : String → Option String
event_lifecycle event_type =
    if event_type == "AssignmentGranted" || event_type == "AssignmentRenewed"
    then some "ACTIVE"
    else if event_type == "AssignmentReleased"
    then some "RELEASED"
    else if event_type == "AssignmentRevoked"
    then some "REVOKED"
    else if event_type == "AssignmentExpired"
    then some "EXPIRED"
    else if event_type == "AssignmentOrphaned"
    then some "ORPHANED"
    else if event_type == "AssignmentRecovered"
    then some "RECOVERED"
    else none

abbrev from_active : List String
from_active =
    "AssignmentRenewed" ∷ "AssignmentReleased" ∷ "AssignmentRevoked" ∷ "AssignmentExpired"
    ∷ "AssignmentOrphaned" ∷ []

unfoldable pub previous_allowed : String → Option String → Bool
previous_allowed event_type none = event_type == "AssignmentGranted"
previous_allowed event_type (some previous) =
    (previous == "ACTIVE" && contains from_active event_type)
    || ((previous == "EXPIRED" || previous == "ORPHANED") && event_type == "AssignmentRecovered")

unfoldable pub value_text : Fields → String → Checked String
value_text mapping key = elim (lookup key mapping) [
  | none ↦ err "ASSIGNMENT_STATE_INVALID"
  | some v ↦ elim (as_str v) [
    | none ↦ err "ASSIGNMENT_STATE_INVALID"
    | some s ↦ if s == "" then err "ASSIGNMENT_STATE_INVALID" else ok s
  ]
]

unfoldable pub value_integer : Fields → String → Checked ℕ
value_integer mapping key = elim (lookup key mapping) [
  | none ↦ err "ASSIGNMENT_STATE_INVALID"
  | some v ↦ elim (as_u64 v) [
    | none ↦ err "ASSIGNMENT_STATE_INVALID"
    | some n ↦ if ltb max_safe_integer n then err "INTEGER_OUT_OF_RANGE" else ok n
  ]
]

unfoldable pub payload_hash : External → Json → String
payload_hash w payload = w.sha256 (w.print payload)
