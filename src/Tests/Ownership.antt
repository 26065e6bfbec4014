-- ===== src/Tests/Ownership.antt =====
-- The theorems on ownership, applied to a snapshot that shows an owner.
use clinx.Prelude.{true, ◌≡◌, refl, [], ◌∷◌, arith}
use clinx.Prelude.Results.{ok}
use clinx.Json.{Json, number, string, object, pos_int, fields_of}
use clinx.Kernel.Ownership.Owner.{IsOwner, IsRunning, HoldsResource, HasLease}
use clinx.Kernel.Ownership.Allowed.{allow-IsOwner, IsOwner-allow}
use clinx.Kernel.Ownership.Complete.{IsComplete, gather-IsComplete}
use clinx.Json.Access.{
  lookup, insert, remove, get?, ◌!◌, put, as_str, as_bool, as_array, as_object, is_null, is_object,
  is_array, is_string, is_number, as_i64, as_u64, is_text, is_true, is_false, is_empty_array,
}
use clinx.Kernel.Timestamp.{
  well_punctuated, digits_from, number_at, days_in_month, date_exists, time_exists, valid_timestamp,
}
use clinx.Kernel.Required.{
  follow, path_value, unknown, evidence, text_of, integer_of, required_text, required_integer,
  required_timestamp, require_all,
}
use clinx.Kernel.Ownership.{
  lifecycle_allowed, lifecycles_known, gather, text_at, integer_at, epochs_positive, run_checks,
  resource_checks, lease_checks, ownership_checks, first_failure, ownership_decision, insufficient,
  rejected, allowed, decide, ownership_parts, evaluate_ownership,
}
use clinx.Prelude.Text.{sort_texts, dedup}

abbrev pub snapshot : Json
snapshot =
    (object (
      fields_of (
        (
          "allocation",
          (object (
              fields_of (
                ("allocation_id", (string "l1"))
                ∷ ("assignment_id", (string "g1"))
                ∷ ("attempt_id", (string "a1"))
                ∷ ("expires_at", (string "2026-01-01T03:00:00.000000+00:00"))
                ∷ ("incarnation_id", (string "i1"))
                ∷ ("lifecycle", (string "ACTIVE"))
                ∷ ("resource_epoch", (number (pos_int 4)))
                ∷ ("resource_key", (string "k1"))
                ∷ ("version", (number (pos_int 2)))
                ∷ ("worker_id", (string "w1"))
                ∷ []))),
        )
        ∷ (
          "assignment",
          (object (
              fields_of (
                ("assignment_id", (string "g1"))
                ∷ ("attempt_id", (string "a1"))
                ∷ ("incarnation_id", (string "i1"))
                ∷ ("lease_expires_at", (string "2026-01-01T03:00:00.000000+00:00"))
                ∷ ("lifecycle", (string "ACTIVE"))
                ∷ ("resource_epoch", (number (pos_int 4)))
                ∷ ("resource_key", (string "k1"))
                ∷ ("version", (number (pos_int 1)))
                ∷ ("worker_id", (string "w1"))
                ∷ []))),
        )
        ∷ (
          "attempt",
          (object (
              fields_of (
                ("attempt_id", (string "a1"))
                ∷ ("execution_id", (string "x1"))
                ∷ ("lifecycle", (string "ASSIGNED"))
                ∷ []))),
        )
        ∷ (
          "clock",
          (object (
              fields_of (
                ("now", (string "2026-01-01T02:00:00.000000+00:00"))
                ∷ ("source", (string "COORDINATOR_TRUSTED"))
                ∷ ("watermark", (string "2026-01-01T01:00:00.000000+00:00"))
                ∷ []))),
        )
        ∷ (
          "execution",
          (object (
              fields_of (
                ("execution_id", (string "x1"))
                ∷ ("lifecycle", (string "REQUESTED"))
                ∷ ("task_id", (string "t1"))
                ∷ []))),
        )
        ∷ (
          "incarnation",
          (object (
              fields_of (
                ("incarnation_id", (string "i1"))
                ∷ ("lifecycle", (string "ACTIVE"))
                ∷ ("worker_id", (string "w1"))
                ∷ []))),
        )
        ∷ (
          "resource",
          (object (
              fields_of (
                ("fencing_epoch", (number (pos_int 4)))
                ∷ ("resource_key", (string "k1"))
                ∷ ("version", (number (pos_int 3)))
                ∷ []))),
        )
        ∷ (
          "safety_handoff",
          (object (
              fields_of (
                ("assignment_id", (string "g1"))
                ∷ ("attempt_id", (string "a1"))
                ∷ ("incarnation_id", (string "i1"))
                ∷ ("resource_epoch", (number (pos_int 4)))
                ∷ ("resource_key", (string "k1"))
                ∷ ("state", (string "VERIFIED"))
                ∷ ("worker_id", (string "w1"))
                ∷ []))),
        )
        ∷ (
          "worker",
          (object (
              fields_of (
                ("current_incarnation_id", (string "i1"))
                ∷ ("lifecycle", (string "REGISTERED"))
                ∷ ("worker_id", (string "w1"))
                ∷ []))),
        )
        ∷ [])))

abbrev pub request : Json
request =
    (object (
      fields_of (
        ("allocation_id", (string "l1"))
        ∷ ("assignment_id", (string "g1"))
        ∷ ("attempt_id", (string "a1"))
        ∷ ("execution_id", (string "x1"))
        ∷ ("expected_allocation_version", (number (pos_int 2)))
        ∷ ("expected_assignment_version", (number (pos_int 1)))
        ∷ ("expected_resource_version", (number (pos_int 3)))
        ∷ ("incarnation_id", (string "i1"))
        ∷ ("resource_epoch", (number (pos_int 4)))
        ∷ ("resource_key", (string "k1"))
        ∷ ("worker_id", (string "w1"))
        ∷ [])))

abbrev pub payload : Json
payload = (object (fields_of (("request", request) ∷ ("snapshot", snapshot) ∷ [])))

abbrev pub decision : Json
decision = allowed snapshot request

pub decision-allows : is_text (decision ! "decision") "ALLOW_CANDIDATE" ≡ true
unfolding allowed is_text ◌!◌ lookup get? ownership_decision
decision-allows = refl

pub payload-allowed : evaluate_ownership payload ≡ ok (allowed snapshot request)
unfolding lookup insert remove get? ◌!◌ put as_str as_bool as_array as_object is_null is_object
    is_array is_string is_number as_i64 as_u64 is_text is_true is_false is_empty_array
    well_punctuated digits_from number_at days_in_month date_exists time_exists valid_timestamp
    follow path_value unknown evidence text_of integer_of required_text required_integer
    required_timestamp require_all lifecycle_allowed lifecycles_known gather text_at integer_at
    epochs_positive run_checks resource_checks lease_checks ownership_checks first_failure
    ownership_decision insufficient rejected allowed decide ownership_parts evaluate_ownership
    sort_texts dedup
payload-allowed = refl

payload-split : ownership_parts payload ≡ ok (snapshot, request)
unfolding lookup insert remove get? ◌!◌ put as_str as_bool as_array as_object is_null is_object
    is_array is_string is_number as_i64 as_u64 is_text is_true is_false is_empty_array
    well_punctuated digits_from number_at days_in_month date_exists time_exists valid_timestamp
    follow path_value unknown evidence text_of integer_of required_text required_integer
    required_timestamp require_all lifecycle_allowed lifecycles_known gather text_at integer_at
    epochs_positive run_checks resource_checks lease_checks ownership_checks first_failure
    ownership_decision insufficient rejected allowed decide ownership_parts evaluate_ownership
    sort_texts dedup
payload-split = refl

evidence_complete : gather snapshot request ≡ ok []
unfolding lookup insert remove get? ◌!◌ put as_str as_bool as_array as_object is_null is_object
    is_array is_string is_number as_i64 as_u64 is_text is_true is_false is_empty_array
    well_punctuated digits_from number_at days_in_month date_exists time_exists valid_timestamp
    follow path_value unknown evidence text_of integer_of required_text required_integer
    required_timestamp require_all lifecycle_allowed lifecycles_known gather text_at integer_at
    epochs_positive run_checks resource_checks lease_checks ownership_checks first_failure
    ownership_decision insufficient rejected allowed decide ownership_parts evaluate_ownership
    sort_texts dedup
evidence_complete = refl

running : IsRunning snapshot request
unfolding lookup insert remove get? ◌!◌ put as_str as_bool as_array as_object is_null is_object
    is_array is_string is_number as_i64 as_u64 is_text is_true is_false is_empty_array
    well_punctuated digits_from number_at days_in_month date_exists time_exists valid_timestamp
    follow path_value unknown evidence text_of integer_of required_text required_integer
    required_timestamp require_all lifecycle_allowed lifecycles_known gather text_at integer_at
    epochs_positive run_checks resource_checks lease_checks ownership_checks first_failure
    ownership_decision insufficient rejected allowed decide ownership_parts evaluate_ownership
    sort_texts dedup
running = record {
  execution_id = refl;
  execution_live = refl;
  attempt_execution = refl;
  attempt_id = refl;
  attempt_assigned = refl;
  worker_id = refl;
  worker_registered = refl;
  incarnation_current = refl;
  incarnation_id = refl;
  incarnation_worker = refl;
  incarnation_active = refl;
  assignment_id = refl;
  assignment_attempt = refl;
  assignment_worker = refl;
  assignment_incarnation = refl;
  assignment_resource = refl;
  assignment_active = refl;
  assignment_epoch = refl;
}

holding : HoldsResource snapshot request
unfolding lookup insert remove get? ◌!◌ put as_str as_bool as_array as_object is_null is_object
    is_array is_string is_number as_i64 as_u64 is_text is_true is_false is_empty_array
    well_punctuated digits_from number_at days_in_month date_exists time_exists valid_timestamp
    follow path_value unknown evidence text_of integer_of required_text required_integer
    required_timestamp require_all lifecycle_allowed lifecycles_known gather text_at integer_at
    epochs_positive run_checks resource_checks lease_checks ownership_checks first_failure
    ownership_decision insufficient rejected allowed decide ownership_parts evaluate_ownership
    sort_texts dedup
holding = record {
  allocation_id = refl;
  allocation_assignment = refl;
  allocation_attempt = refl;
  allocation_worker = refl;
  allocation_incarnation = refl;
  allocation_resource = refl;
  allocation_active = refl;
  allocation_epoch = refl;
  resource_key = refl;
  resource_epoch = refl;
  assignment_version = refl;
  allocation_version = refl;
  resource_version = refl;
}

leased : HasLease snapshot request
unfolding lookup insert remove get? ◌!◌ put as_str as_bool as_array as_object is_null is_object
    is_array is_string is_number as_i64 as_u64 is_text is_true is_false is_empty_array
    well_punctuated digits_from number_at days_in_month date_exists time_exists valid_timestamp
    follow path_value unknown evidence text_of integer_of required_text required_integer
    required_timestamp require_all lifecycle_allowed lifecycles_known gather text_at integer_at
    epochs_positive run_checks resource_checks lease_checks ownership_checks first_failure
    ownership_decision insufficient rejected allowed decide ownership_parts evaluate_ownership
    sort_texts dedup
leased = record {
  same_lease = refl;
  clock_trusted = refl;
  clock_monotone = refl;
  unexpired = refl;
  handoff_verified = refl;
  handoff_assignment = refl;
  handoff_worker = refl;
  handoff_incarnation = refl;
  handoff_attempt = refl;
  handoff_resource = refl;
  handoff_epoch = refl;
}

owner : IsOwner snapshot request
unfolding integer_at path_value get? lookup as_u64
owner = record {
  running = running;
  resource = holding;
  lease = leased;
  epoch_positive = omega arith;
}

allow-IsOwner_example :
    (s : Json) × (r : Json) × (ownership_parts payload ≡ ok (s, r))
    × (gather s r ≡ ok [])
    × IsOwner s r
    × (allowed snapshot request ≡ allowed s r)
unfolding allowed is_text ◌!◌ lookup ownership_decision
allow-IsOwner_example = allow-IsOwner payload (allowed snapshot request) payload-allowed refl

IsOwner-allow_example : evaluate_ownership payload ≡ ok (allowed snapshot request)
IsOwner-allow_example = IsOwner-allow payload snapshot request payload-split evidence_complete owner

gather-IsComplete_example : IsComplete snapshot request
gather-IsComplete_example = gather-IsComplete snapshot request evidence_complete
