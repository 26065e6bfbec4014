-- ===== src/Tests/Assignments.antt =====
-- The theorems on assignment streams, applied to a grant, its renewal and its release.
use clinx.Prelude.{◌≡◌, refl, none, some, List, [], ◌∷◌, inl}
use clinx.Prelude.Results.{ok}
use clinx.Json.{Json, null, number, string, object, pos_int, fields_of}
use clinx.Kernel.Assignment.{RuntimeEvent}
use clinx.Kernel.Assignment.Replay.{Folded, nothing_folded}
use clinx.Kernel.Assignment.Stream.{IsReplay, replay_stream-IsReplay, ended_stays}
use clinx.Tests.{ext, zeros, value_of}
use clinx.Kernel.Timestamp.{
  well_punctuated, digits_from, number_at, days_in_month, date_exists, time_exists, valid_timestamp,
}
use clinx.Kernel.Required.{
  follow, path_value, unknown, evidence, text_of, integer_of, required_text, required_integer,
  required_timestamp, require_all,
}
use clinx.Kernel.Assignment.{
  event_from, decode_event, event_lifecycle, previous_allowed, value_text, value_integer,
  payload_hash,
}
use clinx.Kernel.Assignment.Legacy.{
  increment, take_object, granted_state, change, changed_state, legacy_state,
}
use clinx.Kernel.Assignment.State.{is_legacy, parts_of, complete, versions_of}
use clinx.Kernel.Assignment.State.Checks.{
  lifecycles_fit, recovery_allowed, same_value, identities_fit, leases_fit, recovery_object_fits,
  recovery_fits, old_version, keeps_identity, versions_advance, continues, starts, checked_parts,
}
use clinx.Kernel.Assignment.State.Clean.{
  strays, unknown_members, pick, clean, validate_assignment_state,
}
use clinx.Kernel.Assignment.Replay.{
  decode_events, in_range, lifecycle_before, envelope, fold_event, fold_events, answer,
  replay_stream, replay_assignment,
}
use clinx.Json.Access.{
  lookup, insert, remove, get?, ◌!◌, put, as_str, as_bool, as_array, as_object, is_null, is_object,
  is_array, is_string, is_number, as_i64, as_u64, is_text, is_true, is_false, is_empty_array,
}
use clinx.Json.Equality.{json_eq, items_eq, fields_eq}
use clinx.Prelude.Text.{sort_texts, dedup}

abbrev granted : RuntimeEvent
granted = record {
  event_id = "e1";
  stream_type = "assignment";
  stream_id = "g1";
  sequence = 1;
  event_family = "RUNTIME_WORKER_V1";
  event_type = "AssignmentGranted";
  schema_version = 1;
  occurred_at = "2026-01-01T01:00:00.000000+00:00";
  recorded_at = "2026-01-01T01:00:00.000000+00:00";
  payload =
      (object (
        fields_of (
          ("allocation_id", (string "l1"))
          ∷ ("assignment_id", (string "g1"))
          ∷ ("attempt_id", (string "a1"))
          ∷ ("incarnation_id", (string "i1"))
          ∷ ("lease_expires_at", (string "2026-01-01T09:00:00.000000+00:00"))
          ∷ ("resource_epoch", (number (pos_int 4)))
          ∷ ("resource_key", (string "k1"))
          ∷ ("worker_id", (string "w1"))
          ∷ [])));
  payload_hash = zeros;
  global_position = none;
}

abbrev renewed : RuntimeEvent
renewed = record {
  event_id = "e2";
  stream_type = "assignment";
  stream_id = "g1";
  sequence = 2;
  event_family = "RUNTIME_WORKER_V1";
  event_type = "AssignmentRenewed";
  schema_version = 1;
  occurred_at = "2026-01-01T02:00:00.000000+00:00";
  recorded_at = "2026-01-01T02:00:00.000000+00:00";
  payload =
      (object (
        fields_of (
          ("assignment_id", (string "g1"))
          ∷ ("lease_expires_at", (string "2026-01-01T12:00:00.000000+00:00"))
          ∷ [])));
  payload_hash = zeros;
  global_position = none;
}

abbrev released : RuntimeEvent
released = record {
  event_id = "e3";
  stream_type = "assignment";
  stream_id = "g1";
  sequence = 3;
  event_family = "RUNTIME_WORKER_V1";
  event_type = "AssignmentReleased";
  schema_version = 1;
  occurred_at = "2026-01-01T03:00:00.000000+00:00";
  recorded_at = "2026-01-01T03:00:00.000000+00:00";
  payload =
      (object (fields_of (("assignment_id", (string "g1")) ∷ ("reason", (string "done")) ∷ [])));
  payload_hash = zeros;
  global_position = none;
}

abbrev later : List RuntimeEvent
later = renewed ∷ released ∷ []

abbrev replayed : Json
replayed = value_of (replay_stream ext (granted ∷ later)) null

abbrev ended : Folded
ended = value_of (fold_events ext "g1" 0 nothing_folded (granted ∷ later)) nothing_folded

stream-accepted : replay_stream ext (granted ∷ later) ≡ ok replayed
unfolding well_punctuated digits_from number_at days_in_month date_exists time_exists
    valid_timestamp follow path_value unknown evidence text_of integer_of required_text
    required_integer required_timestamp require_all event_from decode_event event_lifecycle
    previous_allowed value_text value_integer payload_hash increment take_object granted_state
    change changed_state legacy_state is_legacy parts_of complete versions_of lifecycles_fit
    recovery_allowed same_value identities_fit leases_fit recovery_object_fits recovery_fits
    old_version keeps_identity versions_advance continues starts checked_parts strays
    unknown_members pick clean validate_assignment_state decode_events in_range lifecycle_before
    envelope fold_event fold_events answer replay_stream replay_assignment lookup insert remove get?
    ◌!◌ put as_str as_bool as_array as_object is_null is_object is_array is_string is_number as_i64
    as_u64 is_text is_true is_false is_empty_array json_eq items_eq fields_eq sort_texts dedup
stream-accepted = refl

ended-lifecycle : lifecycle_before ended.state ≡ some "RELEASED"
unfolding well_punctuated digits_from number_at days_in_month date_exists time_exists
    valid_timestamp follow path_value unknown evidence text_of integer_of required_text
    required_integer required_timestamp require_all event_from decode_event event_lifecycle
    previous_allowed value_text value_integer payload_hash increment take_object granted_state
    change changed_state legacy_state is_legacy parts_of complete versions_of lifecycles_fit
    recovery_allowed same_value identities_fit leases_fit recovery_object_fits recovery_fits
    old_version keeps_identity versions_advance continues starts checked_parts strays
    unknown_members pick clean validate_assignment_state decode_events in_range lifecycle_before
    envelope fold_event fold_events answer replay_stream replay_assignment lookup insert remove get?
    ◌!◌ put as_str as_bool as_array as_object is_null is_object is_array is_string is_number as_i64
    as_u64 is_text is_true is_false is_empty_array json_eq items_eq fields_eq sort_texts dedup
ended-lifecycle = refl

replay_stream-IsReplay_example : IsReplay ext granted later replayed
replay_stream-IsReplay_example = replay_stream-IsReplay ext granted later replayed stream-accepted

ended_stays_example : ◌≡◌ {A = List RuntimeEvent} [] []
unfolding fold_events
ended_stays_example =
    ended_stays ext "g1" 3 ended [] ended "RELEASED" (inl refl) ended-lifecycle refl
