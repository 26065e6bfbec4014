-- ===== src/Tests/Transitions.antt =====
-- The theorems on transitions and on the ledger of deliveries, applied to requests.
use clinx.Prelude.{true, false, ◌≡◌, refl, List, [], ◌∷◌}
use clinx.Json.{Json, bool, number, string, array, object, pos_int, of_list, fields_of}
use clinx.ExecutionCore.{apply, reject}
use clinx.Tests.{ext}
use clinx.Json.Access.{
  lookup, insert, remove, get?, ◌!◌, put, as_str, as_bool, as_array, as_object, is_null, is_object,
  is_array, is_string, is_number, as_i64, as_u64, is_text, is_true, is_false, is_empty_array,
}
use clinx.Json.Equality.{json_eq, items_eq, fields_eq}
use clinx.ExecutionCore.Contract.{contract_object, ObjectContract}
use clinx.ExecutionCore.Evidence.{
  same_names, keys, numeric, numeric_eq, scalar_eq, as_f64, num, truth, text, int_above,
  identity_member, identity, bundle, outcome, py_eq, py_eq_items, py_eq_fields,
}
use clinx.ExecutionCore.Guards.{
  guard_children_resolved, guard_admission, dispatched_binding, guard_binding, guard_stopped,
  guard_event_bundle, allocation_live, versions_typed, is_fresh, guard_provider, guard_fence,
  grant_fits, guard_grant, guard_expired, guard_incarnation, guard_new_incarnation,
  guard_not_dispatched, before_deadline, guard_retry,
}
use clinx.ExecutionCore.Deliveries.{
  delivery_outcome, unsuccessful, agree, reconciled, delivered, fresh_call, check_row, check_rows,
  guard_deliveries, result_bound, outcome_allowed, check_result, guard_finalizer, guard,
}
use clinx.ExecutionCore.Transition.{
  request_shaped, version_advances, edge_fits, fitting, requested_edge, facts_known, id_name,
  binding_matches, run_guards, transition,
}
use clinx.Prelude.{unwrap_or}
use clinx.ExecutionCore.Transition.Applied.{IsApplied, transition-IsApplied}
use clinx.ExecutionCore.Transition.Lifecycle.{terminal_rejects}
use clinx.ExecutionCore.Transition.Safety.{execution_outcome, allocation_release}
use clinx.ExecutionCore.Deliveries.Ledger.{IsLedger, guard_deliveries-IsLedger}
use clinx.ExecutionCore.Deliveries.Outcomes.{IsFinal, guard_finalizer-IsFinal}

abbrev binding : Json
binding =
    (object (
      fields_of (
        ("attempt_id", (string "a1"))
        ∷ ("execution_id", (string "x1"))
        ∷ ("generation", (number (pos_int 1)))
        ∷ ("operation_id", (string "op1"))
        ∷ ("provider_session_id", (string "s1"))
        ∷ ("thread_id", (string "t1"))
        ∷ ("turn_id", (string "u1"))
        ∷ [])))

abbrev final_facts : Json
final_facts =
    (object (
      fields_of (
        ("binding", binding)
        ∷ (
          "commit_bundle",
          (array (
              of_list (
                (string "result")
                ∷ (string "terminal")
                ∷ (string "event")
                ∷ (string "receipt")
                ∷ (string "outbox")
                ∷ []))),
        )
        ∷ (
          "deliveries",
          (array (
              of_list (
                (object (
                  fields_of (
                    ("ack_host_ref", (string "h1"))
                    ∷ ("attempt_id", (string "a1"))
                    ∷ ("call_id", (string "c1"))
                    ∷ ("delivery_state", (string "DELIVERED"))
                    ∷ ("execution_id", (string "x1"))
                    ∷ ("host_completion", (string "KNOWN"))
                    ∷ ("host_ref", (string "h1"))
                    ∷ ("response_sent", (bool true))
                    ∷ [])))
                ∷ (object (
                    fields_of (
                      ("ack_host_ref", (string "h1"))
                      ∷ ("attempt_id", (string "a1"))
                      ∷ ("call_id", (string "c2"))
                      ∷ ("delivery_state", (string "DELIVERED"))
                      ∷ ("execution_id", (string "x1"))
                      ∷ ("host_completion", (string "KNOWN"))
                      ∷ ("host_ref", (string "h1"))
                      ∷ ("response_sent", (bool true))
                      ∷ [])))
                ∷ []))),
        )
        ∷ ("delivery_ledger_complete", (bool true))
        ∷ ("finalization_phase", (string "TERMINAL_COMMITTED"))
        ∷ ("now", (number (pos_int 150)))
        ∷ (
          "observation",
          (object (
              fields_of (
                ("active_claims", (number (pos_int 0)))
                ∷ ("binding", binding)
                ∷ ("complete", (bool true))
                ∷ ("liveness", (string "TERMINAL"))
                ∷ ("observed_at", (number (pos_int 100)))
                ∷ []))),
        )
        ∷ (
          "result",
          (object (
              fields_of (
                ("attempt_id", (string "a1"))
                ∷ ("execution_id", (string "x1"))
                ∷ ("outcome", (string "SUCCEEDED"))
                ∷ ("result_ref", (string "r1"))
                ∷ []))),
        )
        ∷ [])))

abbrev commit : Json
commit =
    (object (
      fields_of (
        ("action", (string "commit_succeeded"))
        ∷ ("actor", (string "finalizer"))
        ∷ ("facts", final_facts)
        ∷ ("from", (string "FINALIZING"))
        ∷ ("id", (string "x1"))
        ∷ ("next_version", (number (pos_int 4)))
        ∷ ("object", (string "Execution"))
        ∷ ("to", (string "SUCCEEDED"))
        ∷ ("version", (number (pos_int 3)))
        ∷ [])))

abbrev recover_facts : Json
recover_facts =
    (object (
      fields_of (
        ("old_writer_stopped_ref", (string "w1"))
        ∷ ("side_effect_fenced_ref", (string "f1"))
        ∷ [])))

abbrev recover : Json
recover =
    (object (
      fields_of (
        ("action", (string "recover"))
        ∷ ("actor", (string "coordinator"))
        ∷ ("facts", recover_facts)
        ∷ ("from", (string "QUARANTINED"))
        ∷ ("id", (string "l1"))
        ∷ ("next_version", (number (pos_int 8)))
        ∷ ("object", (string "ResourceAllocation"))
        ∷ ("to", (string "RELEASE_PENDING"))
        ∷ ("version", (number (pos_int 7)))
        ∷ [])))

abbrev reopen : Json
reopen =
    (object (
      fields_of (
        ("action", (string "resume"))
        ∷ ("actor", (string "task_command"))
        ∷ ("facts", (object (fields_of ([]))))
        ∷ ("from", (string "ARCHIVED"))
        ∷ ("id", (string "t1"))
        ∷ ("next_version", (number (pos_int 3)))
        ∷ ("object", (string "Task"))
        ∷ ("to", (string "ACTIVE"))
        ∷ ("version", (number (pos_int 2)))
        ∷ [])))

abbrev task : ObjectContract
task =
    unwrap_or (contract_object "Task")
      (record { name = ""; initial = ""; terminal = []; transitions = [] })

commit-applies : transition ext commit ≡ apply
unfolding lookup insert remove get? ◌!◌ put as_str as_bool as_array as_object is_null is_object
    is_array is_string is_number as_i64 as_u64 is_text is_true is_false is_empty_array json_eq
    items_eq fields_eq contract_object same_names keys numeric numeric_eq scalar_eq as_f64 num truth
    text int_above identity_member identity bundle outcome py_eq py_eq_items py_eq_fields
    guard_children_resolved guard_admission dispatched_binding guard_binding guard_stopped
    guard_event_bundle allocation_live versions_typed is_fresh guard_provider guard_fence grant_fits
    guard_grant guard_expired guard_incarnation guard_new_incarnation guard_not_dispatched
    before_deadline guard_retry delivery_outcome unsuccessful agree reconciled delivered fresh_call
    check_row check_rows guard_deliveries result_bound outcome_allowed check_result guard_finalizer
    guard request_shaped version_advances edge_fits fitting requested_edge facts_known id_name
    binding_matches run_guards transition
commit-applies = refl

recover-applies : transition ext recover ≡ apply
unfolding lookup insert remove get? ◌!◌ put as_str as_bool as_array as_object is_null is_object
    is_array is_string is_number as_i64 as_u64 is_text is_true is_false is_empty_array json_eq
    items_eq fields_eq contract_object same_names keys numeric numeric_eq scalar_eq as_f64 num truth
    text int_above identity_member identity bundle outcome py_eq py_eq_items py_eq_fields
    guard_children_resolved guard_admission dispatched_binding guard_binding guard_stopped
    guard_event_bundle allocation_live versions_typed is_fresh guard_provider guard_fence grant_fits
    guard_grant guard_expired guard_incarnation guard_new_incarnation guard_not_dispatched
    before_deadline guard_retry delivery_outcome unsuccessful agree reconciled delivered fresh_call
    check_row check_rows guard_deliveries result_bound outcome_allowed check_result guard_finalizer
    guard request_shaped version_advances edge_fits fitting requested_edge facts_known id_name
    binding_matches run_guards transition
recover-applies = refl

final-applies : guard_finalizer ext false final_facts (string "SUCCEEDED") ≡ apply
unfolding lookup insert remove get? ◌!◌ put as_str as_bool as_array as_object is_null is_object
    is_array is_string is_number as_i64 as_u64 is_text is_true is_false is_empty_array json_eq
    items_eq fields_eq contract_object same_names keys numeric numeric_eq scalar_eq as_f64 num truth
    text int_above identity_member identity bundle outcome py_eq py_eq_items py_eq_fields
    guard_children_resolved guard_admission dispatched_binding guard_binding guard_stopped
    guard_event_bundle allocation_live versions_typed is_fresh guard_provider guard_fence grant_fits
    guard_grant guard_expired guard_incarnation guard_new_incarnation guard_not_dispatched
    before_deadline guard_retry delivery_outcome unsuccessful agree reconciled delivered fresh_call
    check_row check_rows guard_deliveries result_bound outcome_allowed check_result guard_finalizer
    guard request_shaped version_advances edge_fits fitting requested_edge facts_known id_name
    binding_matches run_guards transition
final-applies = refl

deliveries-apply : guard_deliveries ext final_facts (string "SUCCEEDED") ≡ apply
unfolding lookup insert remove get? ◌!◌ put as_str as_bool as_array as_object is_null is_object
    is_array is_string is_number as_i64 as_u64 is_text is_true is_false is_empty_array json_eq
    items_eq fields_eq contract_object same_names keys numeric numeric_eq scalar_eq as_f64 num truth
    text int_above identity_member identity bundle outcome py_eq py_eq_items py_eq_fields
    guard_children_resolved guard_admission dispatched_binding guard_binding guard_stopped
    guard_event_bundle allocation_live versions_typed is_fresh guard_provider guard_fence grant_fits
    guard_grant guard_expired guard_incarnation guard_new_incarnation guard_not_dispatched
    before_deadline guard_retry delivery_outcome unsuccessful agree reconciled delivered fresh_call
    check_row check_rows guard_deliveries result_bound outcome_allowed check_result guard_finalizer
    guard request_shaped version_advances edge_fits fitting requested_edge facts_known id_name
    binding_matches run_guards transition
deliveries-apply = refl

transition-IsApplied_example : IsApplied ext commit
transition-IsApplied_example = transition-IsApplied ext commit commit-applies

terminal_rejects_example : transition ext reopen ≡ reject
unfolding lookup insert remove get? ◌!◌ put as_str as_bool as_array as_object is_null is_object
    is_array is_string is_number as_i64 as_u64 is_text is_true is_false is_empty_array json_eq
    items_eq fields_eq contract_object same_names keys numeric numeric_eq scalar_eq as_f64 num truth
    text int_above identity_member identity bundle outcome py_eq py_eq_items py_eq_fields
    guard_children_resolved guard_admission dispatched_binding guard_binding guard_stopped
    guard_event_bundle allocation_live versions_typed is_fresh guard_provider guard_fence grant_fits
    guard_grant guard_expired guard_incarnation guard_new_incarnation guard_not_dispatched
    before_deadline guard_retry delivery_outcome unsuccessful agree reconciled delivered fresh_call
    check_row check_rows guard_deliveries result_bound outcome_allowed check_result guard_finalizer
    guard request_shaped version_advances edge_fits fitting requested_edge facts_known id_name
    binding_matches run_guards transition
terminal_rejects_example = terminal_rejects ext reopen "Task" "ARCHIVED" task refl refl refl refl

execution_outcome_example : IsFinal ext false final_facts (string "SUCCEEDED")
unfolding as_str ◌!◌ lookup
execution_outcome_example = execution_outcome ext commit "SUCCEEDED" refl refl refl commit-applies

allocation_release_example : guard_stopped recover_facts ≡ apply
unfolding as_str ◌!◌ lookup
allocation_release_example =
    allocation_release ext recover "RELEASE_PENDING" refl refl refl recover-applies

guard_finalizer-IsFinal_example : IsFinal ext false final_facts (string "SUCCEEDED")
guard_finalizer-IsFinal_example =
    guard_finalizer-IsFinal ext final_facts (string "SUCCEEDED") false final-applies

guard_deliveries-IsLedger_example :
    (rows : List Json) × IsLedger ext final_facts (string "SUCCEEDED") rows
guard_deliveries-IsLedger_example =
    guard_deliveries-IsLedger ext final_facts (string "SUCCEEDED") deliveries-apply
