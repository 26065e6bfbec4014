-- ===== src/Kernel/Ownership.antt =====
-- `evaluate_ownership` of kernel/src/lib.rs: does the snapshot show that the requesting worker owns
-- the resource? The chain of early returns is a list of checks, of which the first that fails is
-- reported.
pub mod Owner
pub mod Allowed
pub mod Complete
use Prim.Native.Nat.{Ordering}
use Prim.Native.String.{compare}
use clinx.Prelude.{
  ℕ, String, Bool, true, false, not, ◌&&◌, ◌||◌, Option, none, some, List, [], ◌∷◌, ◌++◌, map, ◌==◌,
  eqb, ltb, all, any, contains, unwrap_or, if◌then◌else◌,
}
use clinx.Prelude.Results.{Result, ok, err, ◌>>=◌, ◌>>◌, ensure}
use clinx.Prelude.Text.{sort_texts, dedup}
use clinx.Json.{Json, null, bool, number, string, array, object, pos_int, names, of_list, fields_of}
use clinx.Json.Access.{get?, as_str, as_u64, as_object, is_object}
use clinx.Kernel.{Checked}
use clinx.Kernel.Required.{
  path_value, evidence, required_text, required_integer, required_timestamp, require_all,
}

unfoldable pub lifecycle_allowed : String → String → Bool
lifecycle_allowed path value =
    if path == "execution.lifecycle"
    then contains ("REQUESTED" ∷ "CANCELLED" ∷ "TERMINAL" ∷ []) value
    else if path == "attempt.lifecycle"
    then contains ("PENDING" ∷ "ASSIGNED" ∷ "RELEASED" ∷ "TERMINAL" ∷ []) value
    else if path == "worker.lifecycle"
    then contains ("REGISTERED" ∷ "DRAINING" ∷ "RETIRED" ∷ []) value
    else if path == "incarnation.lifecycle"
    then contains ("ACTIVE" ∷ "SUPERSEDED" ∷ "REVOKED" ∷ []) value
    else if path == "assignment.lifecycle"
    then contains ("ACTIVE" ∷ "EXPIRED" ∷ "ORPHANED" ∷ "REVOKED" ∷ "RECOVERED" ∷ "RELEASED" ∷ [])
        value
    else if path == "allocation.lifecycle"
    then contains ("ACTIVE" ∷ "QUARANTINED" ∷ "RELEASED" ∷ []) value
    else if path == "safety_handoff.state"
    then contains ("PENDING" ∷ "VERIFIED" ∷ []) value
    else false

abbrev pub required_text_paths : List String
required_text_paths =
    "execution.execution_id" ∷ "execution.task_id" ∷ "execution.lifecycle" ∷ "attempt.attempt_id"
    ∷ "attempt.execution_id" ∷ "attempt.lifecycle" ∷ "worker.worker_id" ∷ "worker.lifecycle"
    ∷ "worker.current_incarnation_id" ∷ "incarnation.incarnation_id" ∷ "incarnation.worker_id"
    ∷ "incarnation.lifecycle" ∷ "assignment.assignment_id" ∷ "assignment.attempt_id"
    ∷ "assignment.worker_id" ∷ "assignment.incarnation_id" ∷ "assignment.resource_key"
    ∷ "assignment.lifecycle" ∷ "allocation.allocation_id" ∷ "allocation.assignment_id"
    ∷ "allocation.attempt_id" ∷ "allocation.worker_id" ∷ "allocation.incarnation_id"
    ∷ "allocation.resource_key" ∷ "allocation.lifecycle" ∷ "resource.resource_key" ∷ "clock.source"
    ∷ "safety_handoff.state" ∷ "safety_handoff.assignment_id" ∷ "safety_handoff.worker_id"
    ∷ "safety_handoff.incarnation_id" ∷ "safety_handoff.attempt_id" ∷ "safety_handoff.resource_key"
    ∷ []

abbrev pub lifecycle_paths : List String
lifecycle_paths =
    "execution.lifecycle" ∷ "attempt.lifecycle" ∷ "worker.lifecycle" ∷ "incarnation.lifecycle"
    ∷ "assignment.lifecycle" ∷ "allocation.lifecycle" ∷ "safety_handoff.state" ∷ []

abbrev pub required_integer_paths : List String
required_integer_paths =
    "assignment.resource_epoch" ∷ "assignment.version" ∷ "allocation.resource_epoch"
    ∷ "allocation.version" ∷ "resource.fencing_epoch" ∷ "resource.version"
    ∷ "safety_handoff.resource_epoch" ∷ []

abbrev pub required_timestamp_paths : List String
required_timestamp_paths =
    "assignment.lease_expires_at" ∷ "allocation.expires_at" ∷ "clock.now" ∷ "clock.watermark" ∷ []

abbrev pub request_text_paths : List String
request_text_paths =
    "execution_id" ∷ "attempt_id" ∷ "worker_id" ∷ "incarnation_id" ∷ "assignment_id"
    ∷ "allocation_id" ∷ "resource_key" ∷ []

abbrev pub request_integer_paths : List String
request_integer_paths =
    "resource_epoch" ∷ "expected_assignment_version" ∷ "expected_allocation_version"
    ∷ "expected_resource_version" ∷ []

-- The loop over the lifecycle paths: what is missing was noted before.
unfoldable pub lifecycles_known : Json → List String → Checked (Unit {0})
lifecycles_known snapshot [] = ok tt
lifecycles_known snapshot (p ∷ ps) =
    let rest = lifecycles_known snapshot ps in
    elim (evidence snapshot p) [
      | none ↦ rest
      | some v ↦ elim (as_str v) [
        | none ↦ err "INVALID_INPUT"
        | some s ↦ if lifecycle_allowed p s then rest else err "INVALID_INPUT"
      ]
    ]

-- All the evidence that the decision reads; the answer is what is missing of it.
unfoldable pub gather : Json → Json → Checked (List String)
gather snapshot request = do
  m₁ ← require_all required_text snapshot required_text_paths []
  _ ← lifecycles_known snapshot lifecycle_paths
  m₂ ← require_all required_integer snapshot required_integer_paths m₁
  m₃ ← require_all required_timestamp snapshot required_timestamp_paths m₂
  m₄ ← require_all required_text request request_text_paths m₃
  require_all required_integer request request_integer_paths m₄

-- The closures `s`, `r`, `si`, `ri`, whose `unwrap` cannot fail where nothing is missing.
unfoldable pub text_at : Json → String → String
text_at root path = elim (path_value root path) [ none ↦ "" | some v ↦ unwrap_or (as_str v) "" ]

unfoldable pub integer_at : Json → String → ℕ
integer_at root path = elim (path_value root path) [ none ↦ 0 | some v ↦ unwrap_or (as_u64 v) 0 ]

abbrev pub epoch_paths : List String
epoch_paths =
    "assignment.resource_epoch" ∷ "allocation.resource_epoch" ∷ "resource.fencing_epoch"
    ∷ "safety_handoff.resource_epoch" ∷ []

unfoldable pub epochs_positive : Json → Json → Bool
epochs_positive snapshot request =
    all (λ p. not (eqb (integer_at snapshot p) 0)) epoch_paths
    && not (eqb (integer_at request "resource_epoch") 0)

pub record Check : Type 0 where
  pub holds : Bool
  pub reason : String
  pub path : String

abbrev check : Bool → String → String → Check
check holds reason path = record { holds = holds; reason = reason; path = path }

-- Rust's `a < b` on texts.
abbrev pub text_lt : String → String → Bool
text_lt a b = elim (compare a b) [ Ordering.lt ↦ true | Ordering.eq ↦ false | Ordering.gt ↦ false ]

-- A loop over pairs of a snapshot's and a request's path: the first pair that differs rejects.
abbrev same_ids : Json → Json → String → List (String × String) → List Check
same_ids snapshot request reason [] = []
same_ids snapshot request reason ((p, q) ∷ ps) =
    check (text_at snapshot p == text_at request q) reason p ∷ same_ids snapshot request reason ps

abbrev assignment_identity : List (String × String)
assignment_identity =
    ("assignment.assignment_id", "assignment_id")
    ∷ ("assignment.attempt_id", "attempt_id")
    ∷ ("assignment.worker_id", "worker_id")
    ∷ ("assignment.incarnation_id", "incarnation_id")
    ∷ ("assignment.resource_key", "resource_key")
    ∷ []

abbrev allocation_identity : List (String × String)
allocation_identity =
    ("allocation.allocation_id", "allocation_id")
    ∷ ("allocation.assignment_id", "assignment_id")
    ∷ ("allocation.attempt_id", "attempt_id")
    ∷ ("allocation.worker_id", "worker_id")
    ∷ ("allocation.incarnation_id", "incarnation_id")
    ∷ ("allocation.resource_key", "resource_key")
    ∷ []

abbrev handoff_identity : List (String × String)
handoff_identity =
    ("safety_handoff.assignment_id", "assignment_id")
    ∷ ("safety_handoff.worker_id", "worker_id")
    ∷ ("safety_handoff.incarnation_id", "incarnation_id")
    ∷ ("safety_handoff.attempt_id", "attempt_id")
    ∷ ("safety_handoff.resource_key", "resource_key")
    ∷ []

-- The early returns in their order, up to the assignment's epoch, up to the versions, to the end.
module _ (snapshot request : Json) where
  unfoldable pub run_checks : List Check
  run_checks =
      let s = text_at snapshot in
      let r = text_at request in
      let si = integer_at snapshot in
      let ri = integer_at request in
      check (s "execution.execution_id" == r "execution_id") "EXECUTION_ID_MISMATCH"
        "execution.execution_id"
      ∷ check (s "execution.lifecycle" == "REQUESTED") "EXECUTION_NOT_LIVE" "execution.lifecycle"
      ∷ check
          (s "attempt.execution_id" == s "execution.execution_id"
            && s "attempt.attempt_id" == r "attempt_id")
          "ATTEMPT_EXECUTION_MISMATCH" "attempt.execution_id"
      ∷ check (s "attempt.lifecycle" == "ASSIGNED") "ATTEMPT_NOT_ASSIGNED" "attempt.lifecycle"
      ∷ check (s "worker.worker_id" == r "worker_id") "WORKER_ID_MISMATCH" "worker.worker_id"
      ∷ check (s "worker.lifecycle" == "REGISTERED") "WORKER_NOT_ACTIVE" "worker.lifecycle"
      ∷ check (s "worker.current_incarnation_id" == r "incarnation_id")
          "WORKER_INCARNATION_NOT_CURRENT" "worker.current_incarnation_id"
      ∷ check
          (s "incarnation.incarnation_id" == r "incarnation_id"
            && s "incarnation.worker_id" == r "worker_id")
          "INCARNATION_IDENTITY_MISMATCH" "incarnation.incarnation_id"
      ∷ check (s "incarnation.lifecycle" == "ACTIVE") "INCARNATION_NOT_ACTIVE"
          "incarnation.lifecycle"
      ∷ (same_ids snapshot request "ASSIGNMENT_IDENTITY_MISMATCH" assignment_identity
          ++ (check (s "assignment.lifecycle" == "ACTIVE") "ASSIGNMENT_NOT_ACTIVE"
                "assignment.lifecycle"
              ∷ check (eqb (si "assignment.resource_epoch") (ri "resource_epoch"))
                  "ASSIGNMENT_EPOCH_MISMATCH" "assignment.resource_epoch"
              ∷ []))

  unfoldable pub resource_checks : List Check
  resource_checks =
      let s = text_at snapshot in
      let r = text_at request in
      let si = integer_at snapshot in
      let ri = integer_at request in
      same_ids snapshot request "ALLOCATION_IDENTITY_MISMATCH" allocation_identity
      ++ (check (s "allocation.lifecycle" == "ACTIVE") "ALLOCATION_NOT_ACTIVE"
            "allocation.lifecycle"
          ∷ check (eqb (si "allocation.resource_epoch") (ri "resource_epoch"))
              "ALLOCATION_EPOCH_MISMATCH" "allocation.resource_epoch"
          ∷ check (s "resource.resource_key" == r "resource_key") "RESOURCE_IDENTITY_MISMATCH"
              "resource.resource_key"
          ∷ check (eqb (si "resource.fencing_epoch") (ri "resource_epoch"))
              "RESOURCE_EPOCH_MISMATCH" "resource.fencing_epoch"
          ∷ check (eqb (si "assignment.version") (ri "expected_assignment_version"))
              "ASSIGNMENT_VERSION_MISMATCH" "assignment.version"
          ∷ check (eqb (si "allocation.version") (ri "expected_allocation_version"))
              "ALLOCATION_VERSION_MISMATCH" "allocation.version"
          ∷ check (eqb (si "resource.version") (ri "expected_resource_version"))
              "RESOURCE_VERSION_MISMATCH" "resource.version"
          ∷ [])

  unfoldable pub lease_checks : List Check
  lease_checks =
      let s = text_at snapshot in
      check (s "assignment.lease_expires_at" == s "allocation.expires_at") "LEASE_SNAPSHOT_MISMATCH"
        "allocation.expires_at"
      ∷ check (s "clock.source" == "COORDINATOR_TRUSTED") "CLOCK_SOURCE_UNTRUSTED" "clock.source"
      ∷ check (not (text_lt (s "clock.now") (s "clock.watermark"))) "CLOCK_WATERMARK_REGRESSION"
          "clock.now"
      ∷ check (text_lt (s "clock.now") (s "assignment.lease_expires_at")) "LEASE_EXPIRED"
          "assignment.lease_expires_at"
      ∷ check (s "safety_handoff.state" == "VERIFIED") "SAFETY_HANDOFF_NOT_VERIFIED"
          "safety_handoff.state"
      ∷ (same_ids snapshot request "SAFETY_HANDOFF_OWNER_MISMATCH" handoff_identity
          ++ (check
                (eqb (integer_at snapshot "safety_handoff.resource_epoch")
                  (integer_at request "resource_epoch"))
                "SAFETY_HANDOFF_OWNER_MISMATCH" "safety_handoff.resource_epoch"
              ∷ []))

  unfoldable pub ownership_checks : List Check
  ownership_checks = run_checks ++ (resource_checks ++ lease_checks)

unfoldable pub first_failure : List Check → Option Check
first_failure [] = none
first_failure (c ∷ cs) = let rest = first_failure cs in if c.holds then rest else some c

-- `ownership_decision`, its members in key order.
unfoldable pub ownership_decision : String → String → Json → Json
ownership_decision decision reason_code details = object (
    fields_of (
      ("authority", string "NON_AUTHORITATIVE")
      ∷ ("decision", string decision)
      ∷ ("details", details)
      ∷ ("reason_code", string reason_code)
      ∷ []))

abbrev text_items : List String → List Json
text_items [] = []
text_items (s ∷ ss) = string s ∷ text_items ss

unfoldable pub insufficient : List String → Json
insufficient missing = ownership_decision "INSUFFICIENT_EVIDENCE" "EVIDENCE_INCOMPLETE" (
    object (
      fields_of
        (("missing_or_unknown", array (of_list (text_items (dedup (sort_texts missing))))) ∷ [])))

unfoldable pub rejected : Check → Json
rejected c =
    ownership_decision "REJECT_CANDIDATE" c.reason
      (object (fields_of (("failed_field", string c.path) ∷ [])))

unfoldable pub allowed : Json → Json → Json
allowed snapshot request = ownership_decision "ALLOW_CANDIDATE" "OWNERSHIP_SNAPSHOT_MATCHES" (
    object (
      fields_of (
        ("allocation_version", number (pos_int (integer_at snapshot "allocation.version")))
        ∷ ("assignment_version", number (pos_int (integer_at snapshot "assignment.version")))
        ∷ ("receipt_used_as_authority", bool false)
        ∷ ("resource_epoch", number (pos_int (integer_at request "resource_epoch")))
        ∷ ("resource_version", number (pos_int (integer_at snapshot "resource.version")))
        ∷ [])))

-- The decision on evidence of which nothing is missing.
unfoldable pub decide : Json → Json → Checked Json
decide snapshot request =
    if epochs_positive snapshot request
    then elim (first_failure (ownership_checks snapshot request)) [
      | some c ↦ ok (rejected c)
      | none ↦ ok (allowed snapshot request)
    ]
    else err "INVALID_INPUT"

abbrev conclude : Json → Json → List String → Checked Json
conclude snapshot request [] = decide snapshot request
conclude snapshot request (m ∷ ms) = ok (insufficient (m ∷ ms))

-- The payload is an object of `snapshot` and `request`, both objects.
unfoldable pub ownership_parts : Json → Checked (Json × Json)
ownership_parts payload = elim (as_object payload) [
  | none ↦ err "INVALID_INPUT"
  | some root ↦
      if not (all (contains ("snapshot" ∷ "request" ∷ [])) (names root))
      then err "INVALID_INPUT"
      else elim (get? payload "snapshot") [
        | none ↦ err "INVALID_INPUT"
        | some snapshot ↦ elim (get? payload "request") [
          | none ↦ err "INVALID_INPUT"
          | some request ↦
              if is_object snapshot && is_object request
              then ok (snapshot, request)
              else err "INVALID_INPUT"
        ]
      ]
]

unfoldable pub evaluate_ownership : Json → Checked Json
evaluate_ownership payload = do
  parts ← ownership_parts payload
  missing ← gather parts.0 parts.1
  conclude parts.0 parts.1 missing
