-- ===== src/Tests/Leases.antt =====
-- The theorems on leases, at a claim and a renewal of it.
use clinx.Prelude.{◌≡◌, ◌≤◌, refl, some, [], ◌∷◌}
use clinx.Prelude.Int.{pos}
use clinx.Prelude.Results.{ok}
use clinx.Json.{Json, null, string, number, pos_int, object, fields_of}
use clinx.Authority.Tables.{Tables, no_rows, Lease, at_key}
use clinx.Authority.Leases.{Moment}
use clinx.Authority.Renewals.{Extension}
use clinx.Authority.Leases.Exclusive.{active_count}
use clinx.Authority.Leases.Holders.{IsHeld, begins, claims, renews, renew-IsHeld, one_holder}
use clinx.Tests.{ext, value_of}
use clinx.Json.Access.{
  lookup, insert, get?, ◌!◌, as_str, as_bool, as_array, as_object, is_null, is_object, is_array,
  is_string, is_number, as_i64, as_u64, is_text, is_true, is_false, is_empty_array,
}
use clinx.ExecutionCore.Evidence.{
  same_names, keys, numeric, numeric_eq, scalar_eq, as_f64, num, truth, text, int_above,
  identity_member, identity, bundle, outcome, py_eq, py_eq_items, py_eq_fields,
}
use clinx.ExecutionCore.Canonical.{
  python_float, digest, canonical, canonical_items, canonical_fields,
}
use clinx.Authority.Tables.{find_lease, update_lease, insert_lease, text_member}
use clinx.Authority.Leases.{checked_claim, prior_released, claim_new, claim_checked, claim, release}
use clinx.Authority.Renewals.{
  checked_renewal, renewal_hash, renew_new, renew_admitted, renew_lease, renew,
}

abbrev moment : Moment
moment = record { now = pos 1000; boot = "b"; identity = "authority"; drawn = some "token" }

abbrev asked : Json
asked =
    (object (
      fields_of (
        ("claim_id", (string "c"))
        ∷ ("expected_epoch", (number (pos_int 0)))
        ∷ ("lease_ms", (number (pos_int 500)))
        ∷ (
          "owner",
          (object (
              fields_of (
                ("assignment_id", (string "g"))
                ∷ ("attempt_id", (string "a"))
                ∷ ("execution_id", (string "x"))
                ∷ ("incarnation_id", (string "i"))
                ∷ ("resource_epoch", (number (pos_int 1)))
                ∷ ("resource_key", (string "r"))
                ∷ ("worker_id", (string "w"))
                ∷ []))),
        )
        ∷ ("resource", (string "r"))
        ∷ [])))

abbrev longer : Json
longer =
    (object (
      fields_of (
        ("capability", (string "token"))
        ∷ ("epoch", (number (pos_int 1)))
        ∷ ("lease_ms", (number (pos_int 900)))
        ∷ ("operation_id", (string "o"))
        ∷ ("resource", (string "r"))
        ∷ [])))

abbrev claimed_rows : Tables × Json
claimed_rows = value_of (claim ext moment asked no_rows) (no_rows, null)

abbrev renewed_rows : Tables × Json
renewed_rows = value_of (renew ext moment longer claimed_rows.0) (no_rows, null)

claim-applies : claim ext moment asked no_rows ≡ ok (claimed_rows.0, claimed_rows.1)
unfolding lookup insert get? ◌!◌ as_str as_bool as_array as_object is_null is_object is_array
    is_string is_number as_i64 as_u64 is_text is_true is_false is_empty_array same_names keys
    numeric numeric_eq scalar_eq as_f64 num truth text int_above identity_member identity bundle
    outcome py_eq py_eq_items py_eq_fields python_float digest canonical canonical_items
    canonical_fields find_lease update_lease insert_lease text_member checked_claim prior_released
    claim_new claim_checked claim release checked_renewal renewal_hash renew_new renew_admitted
    renew_lease renew
claim-applies = refl

renewal-applies : renew ext moment longer claimed_rows.0 ≡ ok (renewed_rows.0, renewed_rows.1)
unfolding lookup insert get? ◌!◌ as_str as_bool as_array as_object is_null is_object is_array
    is_string is_number as_i64 as_u64 is_text is_true is_false is_empty_array same_names keys
    numeric numeric_eq scalar_eq as_f64 num truth text int_above identity_member identity bundle
    outcome py_eq py_eq_items py_eq_fields python_float digest canonical canonical_items
    canonical_fields find_lease update_lease insert_lease text_member checked_claim prior_released
    claim_new claim_checked claim release checked_renewal renewal_hash renew_new renew_admitted
    renew_lease renew
renewal-applies = refl

renew-IsHeld_example :
    (x : Extension) × (l : Lease) × (checked_renewal longer ≡ ok x)
    × (find_lease (at_key x.resource x.epoch) claimed_rows.0.leases ≡ some l)
    × IsHeld moment longer x l claimed_rows.0
    × (renew_admitted ext moment l x claimed_rows.0 ≡ ok (renewed_rows.0, renewed_rows.1))
renew-IsHeld_example =
    renew-IsHeld ext moment longer claimed_rows.0 renewed_rows.0 renewed_rows.1 renewal-applies

one_holder_example : active_count "r" renewed_rows.0.leases ≤ 1
one_holder_example =
    one_holder ext renewed_rows.0
      (renews moment longer renewed_rows.0 renewed_rows.1
        (claims moment asked claimed_rows.0 claimed_rows.1 begins claim-applies) renewal-applies)
      "r"
