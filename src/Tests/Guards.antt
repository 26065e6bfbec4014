-- ===== src/Tests/Guards.antt =====
-- The theorems on leases, grants and incarnations, applied to evidence.
use clinx.Prelude.{◌≤◌, true, false, ◌≡◌, refl, some, [], ◌∷◌, arith}
use clinx.Prelude.Int.{pos}
use clinx.Json.{Json, null, bool, number, string, array, object, pos_int, of_list, fields_of}
use clinx.ExecutionCore.{apply, reject, hold_unknown}
use clinx.Tests.{ext}
use clinx.Json.Access.{
  lookup, insert, remove, get?, ◌!◌, put, as_str, as_bool, as_array, as_object, is_null, is_object,
  is_array, is_string, is_number, as_i64, as_u64, is_text, is_true, is_false, is_empty_array,
}
use clinx.Json.Equality.{json_eq, items_eq, fields_eq}
use clinx.ExecutionCore.Evidence.{
  same_names, keys, numeric, numeric_eq, scalar_eq, as_f64, num, truth, text, int_above,
  identity_member, identity, bundle, outcome, py_eq, py_eq_items, py_eq_fields,
}
use clinx.ExecutionCore.Guards.{
  guard_children_resolved, guard_admission, dispatched_binding, guard_binding, guard_stopped,
  guard_event_bundle, allocation_live, versions_typed, is_fresh, guard_provider, guard_fence,
  grant_fits, guard_grant, guard_expired, guard_incarnation, guard_new_incarnation,
  guard_not_dispatched, before_deadline, guard_retry,
}
use clinx.ExecutionCore.Guards.Leases.{
  IsFenced, guard_fence-IsFenced, fence_excludes_expired, provider_exclusive,
}
use clinx.ExecutionCore.Guards.Grants.{
  IsGranted, guard_grant-IsGranted, new_incarnation_advances, new_incarnation_overflow,
}

abbrev binding : Json
binding =
    (object (
      fields_of (
        ("attempt_id", (string "a1"))
        ∷ ("execution_id", (string "x1"))
        ∷ ("generation", (number (pos_int 1)))
        ∷ ("operation_id", (string "op1"))
        ∷ ("provider_session_id", (string "s1"))
        ∷ ("thread_id", (string "t1"))
        ∷ ("turn_id", (string "u1"))
        ∷ [])))

abbrev owner : Json
owner =
    (object (
      fields_of (
        ("assignment_id", (string "g1"))
        ∷ ("attempt_id", (string "a1"))
        ∷ ("execution_id", (string "x1"))
        ∷ ("incarnation_id", (string "i1"))
        ∷ ("resource_epoch", (number (pos_int 4)))
        ∷ ("resource_key", (string "k1"))
        ∷ ("worker_id", (string "w1"))
        ∷ [])))

abbrev lease : Json
lease =
    (object (
      fields_of (
        ("allocation_state", (string "HELD"))
        ∷ ("assignment_state", (string "ACTIVE"))
        ∷ (
          "expected_versions",
          (object (
              fields_of (
                ("allocation", (number (pos_int 1)))
                ∷ ("assignment", (number (pos_int 2)))
                ∷ ("resource", (number (pos_int 3)))
                ∷ []))),
        )
        ∷ ("expires_at", (number (pos_int 200)))
        ∷ ("now", (number (pos_int 150)))
        ∷ ("presented_owner", owner)
        ∷ ("safety_pending", (bool false))
        ∷ ("stored_owner", owner)
        ∷ (
          "stored_versions",
          (object (
              fields_of (
                ("allocation", (number (pos_int 1)))
                ∷ ("assignment", (number (pos_int 2)))
                ∷ ("resource", (number (pos_int 3)))
                ∷ []))),
        )
        ∷ [])))

abbrev grant : Json
grant =
    (object (
      fields_of (
        ("allocation_state", (string "HELD"))
        ∷ ("assignment_state", (string "ACTIVE"))
        ∷ ("capacity", (number (pos_int 4)))
        ∷ ("capacity_units", (number (pos_int 2)))
        ∷ (
          "expected_versions",
          (object (
              fields_of (
                ("allocation", (number (pos_int 1)))
                ∷ ("assignment", (number (pos_int 2)))
                ∷ ("resource", (number (pos_int 3)))
                ∷ []))),
        )
        ∷ ("expires_at", (number (pos_int 200)))
        ∷ ("now", (number (pos_int 150)))
        ∷ ("presented_owner", owner)
        ∷ ("previous_epoch", (number (pos_int 3)))
        ∷ ("safety_pending", (bool false))
        ∷ ("stored_owner", owner)
        ∷ (
          "stored_versions",
          (object (
              fields_of (
                ("allocation", (number (pos_int 1)))
                ∷ ("assignment", (number (pos_int 2)))
                ∷ ("resource", (number (pos_int 3)))
                ∷ []))),
        )
        ∷ ("unresolved_allocation_ids", (array (of_list ([]))))
        ∷ ("used_units", (number (pos_int 1)))
        ∷ [])))

abbrev live : Json
live =
    (object (
      fields_of (
        ("binding", binding)
        ∷ ("now", (number (pos_int 150)))
        ∷ (
          "observation",
          (object (
              fields_of (
                ("active_claims", (number (pos_int 1)))
                ∷ ("binding", binding)
                ∷ ("complete", (bool true))
                ∷ ("liveness", (string "LIVE"))
                ∷ ("observed_at", (number (pos_int 100)))
                ∷ []))),
        )
        ∷ [])))

abbrev incarnation : Json
incarnation =
    (object (
      fields_of (
        ("next_generation", (number (pos_int 3)))
        ∷ ("old_assignments_quarantined", (bool true))
        ∷ ("presented_incarnation", (string "i2"))
        ∷ ("previous_generation", (number (pos_int 2)))
        ∷ ("previous_incarnation", (string "i1"))
        ∷ [])))

abbrev last_incarnation : Json
last_incarnation =
    (object (
      fields_of (
        ("next_generation", null)
        ∷ ("old_assignments_quarantined", (bool true))
        ∷ ("presented_incarnation", (string "i2"))
        ∷ ("previous_generation", (number (pos_int 9223372036854775807)))
        ∷ ("previous_incarnation", (string "i1"))
        ∷ [])))

lease-applies : guard_fence ext lease ≡ apply
unfolding lookup insert remove get? ◌!◌ put as_str as_bool as_array as_object is_null is_object
    is_array is_string is_number as_i64 as_u64 is_text is_true is_false is_empty_array json_eq
    items_eq fields_eq same_names keys numeric numeric_eq scalar_eq as_f64 num truth text int_above
    identity_member identity bundle outcome py_eq py_eq_items py_eq_fields guard_children_resolved
    guard_admission dispatched_binding guard_binding guard_stopped guard_event_bundle
    allocation_live versions_typed is_fresh guard_provider guard_fence grant_fits guard_grant
    guard_expired guard_incarnation guard_new_incarnation guard_not_dispatched before_deadline
    guard_retry
lease-applies = refl

grant-applies : guard_grant ext grant ≡ apply
unfolding lookup insert remove get? ◌!◌ put as_str as_bool as_array as_object is_null is_object
    is_array is_string is_number as_i64 as_u64 is_text is_true is_false is_empty_array json_eq
    items_eq fields_eq same_names keys numeric numeric_eq scalar_eq as_f64 num truth text int_above
    identity_member identity bundle outcome py_eq py_eq_items py_eq_fields guard_children_resolved
    guard_admission dispatched_binding guard_binding guard_stopped guard_event_bundle
    allocation_live versions_typed is_fresh guard_provider guard_fence grant_fits guard_grant
    guard_expired guard_incarnation guard_new_incarnation guard_not_dispatched before_deadline
    guard_retry
grant-applies = refl

live-applies : guard_provider ext false live ≡ apply
unfolding lookup insert remove get? ◌!◌ put as_str as_bool as_array as_object is_null is_object
    is_array is_string is_number as_i64 as_u64 is_text is_true is_false is_empty_array json_eq
    items_eq fields_eq same_names keys numeric numeric_eq scalar_eq as_f64 num truth text int_above
    identity_member identity bundle outcome py_eq py_eq_items py_eq_fields guard_children_resolved
    guard_admission dispatched_binding guard_binding guard_stopped guard_event_bundle
    allocation_live versions_typed is_fresh guard_provider guard_fence grant_fits guard_grant
    guard_expired guard_incarnation guard_new_incarnation guard_not_dispatched before_deadline
    guard_retry
live-applies = refl

incarnation-applies : guard_new_incarnation ext incarnation ≡ apply
unfolding lookup insert remove get? ◌!◌ put as_str as_bool as_array as_object is_null is_object
    is_array is_string is_number as_i64 as_u64 is_text is_true is_false is_empty_array json_eq
    items_eq fields_eq same_names keys numeric numeric_eq scalar_eq as_f64 num truth text int_above
    identity_member identity bundle outcome py_eq py_eq_items py_eq_fields guard_children_resolved
    guard_admission dispatched_binding guard_binding guard_stopped guard_event_bundle
    allocation_live versions_typed is_fresh guard_provider guard_fence grant_fits guard_grant
    guard_expired guard_incarnation guard_new_incarnation guard_not_dispatched before_deadline
    guard_retry
incarnation-applies = refl

guard_fence-IsFenced_example : IsFenced ext lease
guard_fence-IsFenced_example = guard_fence-IsFenced ext lease lease-applies

fence_excludes_expired_example : guard_expired ext lease ≡ reject
fence_excludes_expired_example =
    fence_excludes_expired ext lease (λ a b h. ground arith) lease-applies

provider_exclusive_example : guard_provider ext true live ≡ hold_unknown
provider_exclusive_example = provider_exclusive ext live live-applies

guard_grant-IsGranted_example : IsGranted ext grant
guard_grant-IsGranted_example = guard_grant-IsGranted ext grant grant-applies

new_incarnation_advances_example :
    (1 ≤ 2)
    × (as_i64 (incarnation ! "next_generation") ≡ some (pos 3))
    × (json_eq ext (incarnation ! "presented_incarnation") (incarnation ! "previous_incarnation")
        ≡ false)
    × (is_true (incarnation ! "old_assignments_quarantined") ≡ true)
unfolding as_i64 ◌!◌ lookup
new_incarnation_advances_example =
    new_incarnation_advances ext incarnation 2 refl (omega arith) incarnation-applies

new_incarnation_overflow_example : guard_new_incarnation ext last_incarnation ≡ apply
unfolding lookup insert remove get? ◌!◌ put as_str as_bool as_array as_object is_null is_object
    is_array is_string is_number as_i64 as_u64 is_text is_true is_false is_empty_array json_eq
    items_eq fields_eq same_names keys numeric numeric_eq scalar_eq as_f64 num truth text int_above
    identity_member identity bundle outcome py_eq py_eq_items py_eq_fields guard_children_resolved
    guard_admission dispatched_binding guard_binding guard_stopped guard_event_bundle
    allocation_live versions_typed is_fresh guard_provider guard_fence grant_fits guard_grant
    guard_expired guard_incarnation guard_new_incarnation guard_not_dispatched before_deadline
    guard_retry
new_incarnation_overflow_example =
    new_incarnation_overflow ext last_incarnation refl refl refl refl refl
