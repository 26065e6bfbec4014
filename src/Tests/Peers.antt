-- ===== src/Tests/Peers.antt =====
-- The theorem on the store of peers, at the revocation of a peer.
use clinx.Prelude.{◌≡◌, refl, some, [], ◌∷◌}
use clinx.Prelude.Results.{ok}
use clinx.Json.{Json, null, string, number, pos_int, object, Fields, end, field, fields_of}
use clinx.Discovery.Peers.{Crypto, stored}
use clinx.Discovery.Peers.Kept.{IsPreserved}
use clinx.Discovery.Peers.Trust.{transition-IsPreserved}
use clinx.Tests.{ext, value_of}
use clinx.Json.Access.{
  lookup, insert, get?, ◌!◌, as_str, as_bool, as_array, as_object, is_null, is_object, is_array,
  is_string, is_number, as_i64, as_u64, is_text, is_true, is_false, is_empty_array,
}
use clinx.Json.Equality.{json_eq, items_eq, fields_eq}
use clinx.Prelude.Trim.{is_white, trim_start, trim_end, trim_chars, trim}
use clinx.Node.Identity.{validate_id, validate_name, validate_identity}
use clinx.Discovery.Peers.{
  fingerprint, public_record, certificate, check_peer, peers, key_bound, paired_at, trusted_peer,
  may_trust, applicant, trust, may_enter, authenticate, revoke, change, transition,
}

abbrev crypto : Crypto
crypto = record {
  external = ext;
  decode64 = λ _. some (
      0 ∷ 0 ∷ 0 ∷ 0 ∷ 0 ∷ 0 ∷ 0 ∷ 0 ∷ 0 ∷ 0 ∷ 0 ∷ 0 ∷ 0 ∷ 0 ∷ 0 ∷ 0 ∷ 0 ∷ 0 ∷ 0 ∷ 0 ∷ 0 ∷ 0 ∷ 0 ∷ 0
      ∷ 0 ∷ 0 ∷ 0 ∷ 0 ∷ 0 ∷ 0 ∷ 0 ∷ 0 ∷ []);
  sha256_bytes = λ _. "0000000000000000000000000000000000000000000000000000000000000000";
  certificate_key = λ s. some s;
}

abbrev peer : Json
peer =
    (object (
      fields_of (
        ("certificate", (string "pk"))
        ∷ ("display_name", (string "N"))
        ∷ (
          "fingerprint",
          (string "0000000000000000000000000000000000000000000000000000000000000000"),
        )
        ∷ ("node_id", (string "n1"))
        ∷ ("pairing_protocol", (string "OPAQUE-3DH-RISTRETTO255-SHA512-ARGON2I-v1"))
        ∷ ("protocol_version", (number (pos_int 1)))
        ∷ ("public_key", (string "pk"))
        ∷ ("security_status", (string "OPAQUE_V1"))
        ∷ ("trust_state", (string "TRUSTED"))
        ∷ [])))

abbrev rows : Fields
rows = field "n1" peer end

abbrev raw : Json
raw = object (field "peers" (object rows) end)

abbrev named : Json
named = object (field "node_id" (string "n1") end)

abbrev after : Json
after = value_of (transition crypto "revoke" named "t" raw) null

store-reads : peers crypto raw ≡ ok rows
unfolding lookup insert get? ◌!◌ as_str as_bool as_array as_object is_null is_object is_array
    is_string is_number as_i64 as_u64 is_text is_true is_false is_empty_array json_eq items_eq
    fields_eq is_white trim_start trim_end trim_chars trim validate_id validate_name
    validate_identity fingerprint public_record certificate check_peer peers key_bound paired_at
    trusted_peer may_trust applicant trust may_enter authenticate revoke change transition
store-reads = refl

peer-revokes : transition crypto "revoke" named "t" raw ≡ ok after
unfolding lookup insert get? ◌!◌ as_str as_bool as_array as_object is_null is_object is_array
    is_string is_number as_i64 as_u64 is_text is_true is_false is_empty_array json_eq items_eq
    fields_eq is_white trim_start trim_end trim_chars trim validate_id validate_name
    validate_identity fingerprint public_record certificate check_peer peers key_bound paired_at
    trusted_peer may_trust applicant trust may_enter authenticate revoke change transition
peer-revokes = refl

transition-IsPreserved_example :
    (new : Fields) × (v : Json) × (after ≡ stored crypto (new, v)) × IsPreserved rows new
transition-IsPreserved_example =
    transition-IsPreserved crypto "revoke" named "t" raw after rows store-reads peer-revokes
