-- ===== src/Tests/Receipts.antt =====
-- The theorem on acknowledgements, applied to a row and its acknowledgement.
use clinx.Prelude.{true, false, ◌≡◌, ◌↔◌, refl, inl, [], ◌∷◌}
use clinx.Json.{Json, bool, number, string, object, pos_int, fields_of}
use clinx.ExecutionCore.{apply, duplicate}
use clinx.Tests.{ext}
use clinx.Json.Access.{
  lookup, insert, remove, get?, ◌!◌, put, as_str, as_bool, as_array, as_object, is_null, is_object,
  is_array, is_string, is_number, as_i64, as_u64, is_text, is_true, is_false, is_empty_array,
}
use clinx.Json.Equality.{json_eq, items_eq, fields_eq}
use clinx.ExecutionCore.Evidence.{
  same_names, keys, numeric, numeric_eq, scalar_eq, as_f64, num, truth, text, int_above,
  identity_member, identity, bundle, outcome, py_eq, py_eq_items, py_eq_fields,
}
use clinx.ExecutionCore.Receipts.{
  unidentified, ack_differs, differing, reconcile_ack, receipt_retry,
}
use clinx.ExecutionCore.Receipts.Answers.{IsAcknowledged, reconcile_ack-IsAcknowledged}

abbrev row : Json
row =
    (object (
      fields_of (
        ("attempt_id", (string "v attempt_id"))
        ∷ ("call_id", (string "v call_id"))
        ∷ ("delivery_state", (string "SENT"))
        ∷ ("execution_id", (string "v execution_id"))
        ∷ ("generation", (number (pos_int 2)))
        ∷ ("host_ref", (string "v host_ref"))
        ∷ ("namespace", (string "v namespace"))
        ∷ ("operation_id", (string "v operation_id"))
        ∷ ("owner_ref", (string "v owner_ref"))
        ∷ ("reconciliation_state", (string "OPEN"))
        ∷ ("response_sent", (bool true))
        ∷ ("thread_id", (string "v thread_id"))
        ∷ ("tool", (string "v tool"))
        ∷ ("turn_id", (string "v turn_id"))
        ∷ [])))

abbrev ack : Json
ack =
    (object (
      fields_of (
        ("attempt_id", (string "v attempt_id"))
        ∷ ("call_id", (string "v call_id"))
        ∷ ("execution_id", (string "v execution_id"))
        ∷ ("generation", (number (pos_int 2)))
        ∷ ("host_ref", (string "v host_ref"))
        ∷ ("namespace", (string "v namespace"))
        ∷ ("operation_id", (string "v operation_id"))
        ∷ ("owner_ref", (string "v owner_ref"))
        ∷ ("success", (bool true))
        ∷ ("thread_id", (string "v thread_id"))
        ∷ ("tool", (string "v tool"))
        ∷ ("turn_id", (string "v turn_id"))
        ∷ [])))

ack-applies : reconcile_ack ext row ack ≡ apply
unfolding lookup insert remove get? ◌!◌ put as_str as_bool as_array as_object is_null is_object
    is_array is_string is_number as_i64 as_u64 is_text is_true is_false is_empty_array json_eq
    items_eq fields_eq same_names keys numeric numeric_eq scalar_eq as_f64 num truth text int_above
    identity_member identity bundle outcome py_eq py_eq_items py_eq_fields unidentified ack_differs
    differing reconcile_ack receipt_retry
ack-applies = refl

reconcile_ack-IsAcknowledged_example :
    IsAcknowledged ext row ack
    × ((apply ≡ duplicate) ↔ (is_text (row ! "delivery_state") "DELIVERED" ≡ true))
    × (apply ≡ apply → is_text (row ! "reconciliation_state") "RESOLVED" ≡ false)
reconcile_ack-IsAcknowledged_example =
    reconcile_ack-IsAcknowledged ext row ack apply ack-applies (inl refl)
