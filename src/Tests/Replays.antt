-- ===== src/Tests/Replays.antt =====
-- The theorems on replay, applied to a log of two events, the second delivered twice.
use clinx.Prelude.{◌≡◌, refl, List, [], ◌∷◌}
use clinx.Prelude.Results.{ok}
use clinx.Json.{Json, null, number, string, array, object, pos_int, of_list, fields_of}
use clinx.ExecutionCore.Replay.{Replayed, nothing_replayed}
use clinx.ExecutionCore.Replay.Walks.{latest_first}
use clinx.ExecutionCore.Replay.Traces.{IsReplayed}
use clinx.ExecutionCore.Replay.History.{replay-IsReplayed}
use clinx.ExecutionCore.Replay.Repeats.{replay-redelivered}
use clinx.ExecutionCore.Replay.Generations.{Grows, replay_events-Grows}
use clinx.Tests.{ext, value_of}
use clinx.Prelude.Maps.{find, insert}
use clinx.Json.Access.{
  lookup, get?, ◌!◌, as_str, as_bool, as_array, as_object, is_null, is_object, is_array, is_string,
  is_number, as_i64, as_u64, is_text, is_true, is_false, is_empty_array,
}
use clinx.Json.Equality.{json_eq, items_eq, fields_eq}
use clinx.ExecutionCore.Contract.{contract_object}
use clinx.ExecutionCore.Evidence.{
  same_names, keys, numeric, numeric_eq, scalar_eq, as_f64, num, truth, text, int_above,
  identity_member, identity, bundle, outcome, py_eq, py_eq_items, py_eq_fields,
}
use clinx.ExecutionCore.Guards.{
  guard_children_resolved, guard_admission, dispatched_binding, guard_binding, guard_stopped,
  guard_event_bundle, allocation_live, versions_typed, is_fresh, guard_provider, guard_fence,
  grant_fits, guard_grant, guard_expired, guard_incarnation, guard_new_incarnation,
  guard_not_dispatched, before_deadline, guard_retry,
}
use clinx.ExecutionCore.Deliveries.{
  delivery_outcome, unsuccessful, agree, reconciled, delivered, fresh_call, check_row, check_rows,
  guard_deliveries, result_bound, outcome_allowed, check_result, guard_finalizer, guard,
}
use clinx.ExecutionCore.Transition.{
  request_shaped, version_advances, edge_fits, fitting, requested_edge, facts_known, id_name,
  binding_matches, run_guards, transition,
}
use clinx.ExecutionCore.Canonical.{
  python_float, digest, canonical, canonical_items, canonical_fields,
}
use clinx.ExecutionCore.Replay.{
  lookup_seen, well_enveloped, initial_state, stream_row, stream_rows, event_ids, continues,
  binding_conflicts, bind, advance, replay_payload, replay_new, replay_event, replay_events, replay,
}

abbrev activated : Json
activated =
    (object (
      fields_of (
        ("contract_version", (string "1.0.0"))
        ∷ ("event_id", (string "e1"))
        ∷ ("family", (string "CLINX_EXECUTION_CORE_V1"))
        ∷ ("key", (string "k1"))
        ∷ (
          "payload",
          (object (
              fields_of (
                ("action", (string "activate"))
                ∷ ("actor", (string "task_command"))
                ∷ (
                  "facts",
                  (object (
                      fields_of (
                        (
                          "binding",
                          (object (fields_of (("generation", (number (pos_int 1))) ∷ []))),
                        )
                        ∷ []))),
                )
                ∷ ("from", (string "OPEN"))
                ∷ ("id", (string "t1"))
                ∷ ("next_version", (number (pos_int 1)))
                ∷ ("object", (string "Task"))
                ∷ ("to", (string "ACTIVE"))
                ∷ ("version", (number (pos_int 0)))
                ∷ []))),
        )
        ∷ (
          "payload_hash",
          (string "0000000000000000000000000000000000000000000000000000000000000000"),
        )
        ∷ ("schema_version", (number (pos_int 1)))
        ∷ ("scope", (string "s"))
        ∷ ("sequence", (number (pos_int 1)))
        ∷ ("stream_id", (array (of_list ((string "Task") ∷ (string "t1") ∷ []))))
        ∷ [])))

abbrev blocked : Json
blocked =
    (object (
      fields_of (
        ("contract_version", (string "1.0.0"))
        ∷ ("event_id", (string "e2"))
        ∷ ("family", (string "CLINX_EXECUTION_CORE_V1"))
        ∷ ("key", (string "k2"))
        ∷ (
          "payload",
          (object (
              fields_of (
                ("action", (string "block"))
                ∷ ("actor", (string "task_command"))
                ∷ (
                  "facts",
                  (object (
                      fields_of (
                        (
                          "binding",
                          (object (fields_of (("generation", (number (pos_int 2))) ∷ []))),
                        )
                        ∷ []))),
                )
                ∷ ("from", (string "ACTIVE"))
                ∷ ("id", (string "t1"))
                ∷ ("next_version", (number (pos_int 2)))
                ∷ ("object", (string "Task"))
                ∷ ("to", (string "BLOCKED"))
                ∷ ("version", (number (pos_int 1)))
                ∷ []))),
        )
        ∷ (
          "payload_hash",
          (string "0000000000000000000000000000000000000000000000000000000000000000"),
        )
        ∷ ("schema_version", (number (pos_int 1)))
        ∷ ("scope", (string "s"))
        ∷ ("sequence", (number (pos_int 2)))
        ∷ ("stream_id", (array (of_list ((string "Task") ∷ (string "t1") ∷ []))))
        ∷ [])))

abbrev log : List Json
log = activated ∷ blocked ∷ []

abbrev answer : Json
answer = value_of (replay ext log) null

abbrev halfway : Replayed
halfway = value_of (replay_events ext (activated ∷ []) nothing_replayed) nothing_replayed

abbrev finished : Replayed
finished = value_of (replay_events ext log nothing_replayed) nothing_replayed

log-replays : replay ext log ≡ ok answer
unfolding find insert lookup get? ◌!◌ as_str as_bool as_array as_object is_null is_object is_array
    is_string is_number as_i64 as_u64 is_text is_true is_false is_empty_array json_eq items_eq
    fields_eq contract_object same_names keys numeric numeric_eq scalar_eq as_f64 num truth text
    int_above identity_member identity bundle outcome py_eq py_eq_items py_eq_fields
    guard_children_resolved guard_admission dispatched_binding guard_binding guard_stopped
    guard_event_bundle allocation_live versions_typed is_fresh guard_provider guard_fence grant_fits
    guard_grant guard_expired guard_incarnation guard_new_incarnation guard_not_dispatched
    before_deadline guard_retry delivery_outcome unsuccessful agree reconciled delivered fresh_call
    check_row check_rows guard_deliveries result_bound outcome_allowed check_result guard_finalizer
    guard request_shaped version_advances edge_fits fitting requested_edge facts_known id_name
    binding_matches run_guards transition python_float digest canonical canonical_items
    canonical_fields lookup_seen well_enveloped initial_state stream_row stream_rows event_ids
    continues binding_conflicts bind advance replay_payload replay_new replay_event replay_events
    replay
log-replays = refl

second-replays : replay_events ext (blocked ∷ []) halfway ≡ ok finished
unfolding find insert lookup get? ◌!◌ as_str as_bool as_array as_object is_null is_object is_array
    is_string is_number as_i64 as_u64 is_text is_true is_false is_empty_array json_eq items_eq
    fields_eq contract_object same_names keys numeric numeric_eq scalar_eq as_f64 num truth text
    int_above identity_member identity bundle outcome py_eq py_eq_items py_eq_fields
    guard_children_resolved guard_admission dispatched_binding guard_binding guard_stopped
    guard_event_bundle allocation_live versions_typed is_fresh guard_provider guard_fence grant_fits
    guard_grant guard_expired guard_incarnation guard_new_incarnation guard_not_dispatched
    before_deadline guard_retry delivery_outcome unsuccessful agree reconciled delivered fresh_call
    check_row check_rows guard_deliveries result_bound outcome_allowed check_result guard_finalizer
    guard request_shaped version_advances edge_fits fitting requested_edge facts_known id_name
    binding_matches run_guards transition python_float digest canonical canonical_items
    canonical_fields lookup_seen well_enveloped initial_state stream_row stream_rows event_ids
    continues binding_conflicts bind advance replay_payload replay_new replay_event replay_events
    replay
second-replays = refl

replay-IsReplayed_example :
    (s : Replayed) × (replay_events ext log nothing_replayed ≡ ok s)
    × (answer ≡ array (of_list (stream_rows s.streams)))
    × IsReplayed ext (latest_first log []) s
replay-IsReplayed_example = replay-IsReplayed ext log answer log-replays

replay-redelivered_example : replay ext (activated ∷ blocked ∷ blocked ∷ []) ≡ replay ext log
replay-redelivered_example = replay-redelivered ext (activated ∷ []) [] [] blocked

replay_events-Grows_example : Grows halfway finished
replay_events-Grows_example = replay_events-Grows ext (blocked ∷ []) halfway finished second-replays
