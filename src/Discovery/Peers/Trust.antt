-- ===== src/Discovery/Peers/Trust.antt =====
-- What no operation on the store of peers in kernel/src/discovery_state.rs undoes.
use clinx.Prelude.{
  String, ◌≡◌, refl, ap, sym, ◌∙◌, subst, inl, inr, true, false, ◌&&◌, some, arith, ◌==◌, is_some,
  Option-cases, Bool-cases,
}
use clinx.Prelude.Results.{ok, >>=-eq-ok, ok-injective, ensure, ensure-eq-ok}
use clinx.Json.{Json, null, string, object, Fields, end, field}
use clinx.Json.Access.{lookup, ◌!◌, !-insert, is_text, is_text_iff, is_null, as_object, is_object}
use clinx.Json.Write.{set_member, set_member-ne, set_member-eq}
use clinx.Json.Equality.{json_eq, json_eq-string}
use clinx.Discovery.Peers.{
  Crypto, public_record, certificate, status_known, row, trusted_peer, applicant, paired_at,
  pairing_known, may_enter, may_trust, trust, text_of, authenticate, revoke, change, peers, stored,
  transition, check_peer, check_peers,
}
use clinx.Discovery.Peers.Kept.{
  IsPreserved, insert-IsPreserved, row-lookup, set_member-IsKept, pair-injective, not_revoked,
  still_secure, empty_store, IsKept,
}

module _ (w : Crypto) where
  authenticate-IsPreserved :
      (a now : Json) (rows new : Fields) (v : Json)
      → authenticate w a now rows ≡ ok (new, v)
      → IsPreserved rows new
  unfolding authenticate
  authenticate-IsPreserved a now rows new v h =
      let (id, _, h₁) = >>=-eq-ok (text_of (a ! "node_id") "UNTRUSTED_DEVICE") _ h in
      let (_, _, h₂) = >>=-eq-ok (may_enter w a (row rows id)) _ h₁ in
      let (seen, first, h₃) =
        >>=-eq-ok (set_member "last_authenticated_at" now (row rows id)) _ h₂ in
      let (peer, second, h₄) = >>=-eq-ok (set_member "updated_at" now seen) _ h₃ in
      subst (IsPreserved rows) (pair-injective h₄) (
        insert-IsPreserved id peer rows (λ p found.
          subst (λ x. IsKept x peer) (row-lookup rows id p found)
            (set_member-IsKept "last_authenticated_at" "updated_at" now now (row rows id) seen peer
              first second refl refl refl refl refl
              (λ r.
                set_member-ne "last_authenticated_at" "trust_state" now (row rows id) seen refl
                  first
                ∙ r))))

  revoke-IsPreserved :
      (a now : Json) (rows new : Fields) (v : Json)
      → revoke w a now rows ≡ ok (new, v)
      → IsPreserved rows new
  unfolding revoke
  revoke-IsPreserved a now rows new v h =
      let (id, _, h₁) = >>=-eq-ok (text_of (a ! "node_id") "UNKNOWN_DEVICE") _ h in
      let (_, _, h₂) = >>=-eq-ok (ensure (is_some (lookup id rows)) "UNKNOWN_DEVICE") _ h₁ in
      let (seen, first, h₃) =
        >>=-eq-ok (set_member "trust_state" (string "REVOKED") (row rows id)) _ h₂ in
      let (peer, second, h₄) = >>=-eq-ok (set_member "updated_at" now seen) _ h₃ in
      subst (IsPreserved rows) (pair-injective h₄) (
        insert-IsPreserved id peer rows (λ p found.
          subst (λ x. IsKept x peer) (row-lookup rows id p found)
            (set_member-IsKept "trust_state" "updated_at" (string "REVOKED") now (row rows id) seen
              peer first second refl refl refl refl refl
              (λ r. set_member-eq "trust_state" (string "REVOKED") (row rows id) seen first))))

  trusted_peer-members :
      (public : Fields) (a old paired now : Json)
      → (trusted_peer w public a old paired now ! "public_key" ≡ object public ! "public_key")
        × (trusted_peer w public a old paired now ! "security_status" ≡ a ! "security_status")
  unfolding trusted_peer
  trusted_peer-members public a old paired now = (simp !-insert, simp !-insert)

  applicant-key :
      (a : Json) (public : Fields)
      → applicant w a ≡ ok public
      → (key : String) × (object public ! "public_key" ≡ string key)
        × (status_known (a ! "security_status") ≡ true)
  unfolding applicant
  applicant-key a public h =
      let (_, _, h₁) =
        >>=-eq-ok (ensure (pairing_known a) "FRESH_PRODUCTION_PAIRING_REQUIRED") _ h in
      let (p, _, h₂) = >>=-eq-ok (public_record w (a ! "public")) _ h₁ in
      let (_, known, h₃) =
        >>=-eq-ok (ensure (status_known (a ! "security_status")) "INVALID_PEER_SECURITY_STATUS") _
          h₂ in
      let (key, _, h₄) = >>=-eq-ok (certificate w (a ! "certificate")) _ h₃ in
      let (_, same, h₅) =
        >>=-eq-ok (ensure (is_text (object p ! "public_key") key) "PEER_KEY_MISMATCH") _ h₄ in
      let one = ok-injective h₅ in
      (
        key,
        is_text_iff (object public ! "public_key") key (
            subst (λ x. is_text (object x ! "public_key") key ≡ true) one
              (ensure-eq-ok _ "PEER_KEY_MISMATCH" same)),
        ensure-eq-ok _ "INVALID_PEER_SECURITY_STATUS" known,
      )

  may_trust-eq-ok :
      (rows : Fields) (id : String) (key status : Json)
      → may_trust w rows id key status ≡ ok tt
      → is_null (row rows id) ≡ false
      → (json_eq w.external (row rows id ! "public_key") key ≡ true)
        × (is_text (row rows id ! "trust_state") "REVOKED" ≡ false)
        × ((is_text (row rows id ! "security_status") "OPAQUE_V1" && is_text status "DEV_ONLY")
            ≡ false)
  unfolding may_trust
  may_trust-eq-ok rows id key status may there = ground arith

  -- A row that may be trusted anew is kept.
  trusted-IsKept :
      (rows public : Fields) (id key : String) (a paired now p : Json)
      → lookup id rows ≡ some p
      → is_null p ≡ false
      → object public ! "public_key" ≡ string key
      → status_known (a ! "security_status") ≡ true
      → may_trust w rows id (object public ! "public_key") (a ! "security_status") ≡ ok tt
      → IsKept p (trusted_peer w public a (row rows id) paired now)
  trusted-IsKept rows public id key a paired now p found there its_key known may =
      let here = row-lookup rows id p found in
      let (same, live, secure) =
        may_trust-eq-ok rows id (object public ! "public_key") (a ! "security_status") may
          (ap is_null here ∙ there) in
      let (its_public, its_status) = trusted_peer-members public a (row rows id) paired now in
      record {
        key =
            its_public
            ∙ its_key
            ∙ sym (
                ap (λ x. x ! "public_key") (sym here)
                ∙ json_eq-string w.external (row rows id ! "public_key") key (
                    subst (λ x. json_eq w.external (row rows id ! "public_key") x ≡ true) its_key
                      same));
        stays_revoked = λ h. not_revoked (row rows id) (ap (λ x. x ! "trust_state") here ∙ h) live;
        stays_secure = λ h.
            its_status
            ∙ still_secure (row rows id ! "security_status") (a ! "security_status")
                (ap (λ x. x ! "security_status") here ∙ h) secure known;
      }

  trust-IsPreserved :
      (a now : Json) (rows new : Fields) (v : Json)
      → trust w a now rows ≡ ok (new, v)
      → ((id : String) (p : Json) → lookup id rows ≡ some p → is_null p ≡ false)
      → IsPreserved rows new
  unfolding trust
  trust-IsPreserved a now rows new v h known =
      let (public, asked, h₁) = >>=-eq-ok (applicant w a) _ h in
      let (id, _, h₂) = >>=-eq-ok (text_of (object public ! "node_id") "PANIC") _ h₁ in
      let (_, may, h₃) =
        >>=-eq-ok (may_trust w rows id (object public ! "public_key") (a ! "security_status")) _
          h₂ in
      let (paired, _, h₄) =
        >>=-eq-ok (paired_at w (row rows id) (a ! "security_status") now) _ h₃ in
      let (key, its_key, secure) = applicant-key a public asked in
      subst (IsPreserved rows) (pair-injective h₄) (
        insert-IsPreserved id _ rows (λ p found.
          trusted-IsKept rows public id key a paired now p found (known id p found) its_key secure
            may))

  public_record-is_null :
      (v : Json) (public : Fields) → public_record w v ≡ ok public → is_null v ≡ false
  unfolding public_record is_object is_null
  public_record-is_null null public h = absurd (ground arith)
  public_record-is_null _ public h = refl

  check_peer-is_null : (id : String) (p : Json) → check_peer w id p ≡ ok tt → is_null p ≡ false
  unfolding check_peer
  check_peer-is_null id p h =
      let (public, its, _) = >>=-eq-ok (public_record w p) _ h in public_record-is_null p public its

  check_peers-is_null :
      (rows : Fields)
      → check_peers w rows ≡ ok tt
      → (id : String) (p : Json) → lookup id rows ≡ some p
      → is_null p ≡ false
  unfolding lookup
  check_peers-is_null end h id p found = absurd (ground arith)
  check_peers-is_null (field k v fs) h id p found =
      let (_, first, rest) = >>=-eq-ok (check_peer w k v) _ h in
      let kept = check_peer-is_null k v first in
      elim (Bool-cases (k == id)) [
        | inl same ↦ ground (arith, kept)
        | inr other ↦ check_peers-is_null fs rest id p (ground arith)
      ]

  peers-is_null :
      (raw : Json) (rows : Fields)
      → peers w raw ≡ ok rows
      → (id : String) (p : Json) → lookup id rows ≡ some p
      → is_null p ≡ false
  unfolding peers
  peers-is_null raw rows h id p found = elim (Bool-cases (is_null raw)) [
    | inl empty ↦ absurd (empty_store id (ok-injective {E = String} (ground arith)) found)
    | inr nonempty ↦ elim (Option-cases (as_object (raw ! "peers"))) [
      | inl absent ↦ absurd (ground arith)
      | inr (all, its) ↦
          let (_, checked, same) = >>=-eq-ok (check_peers w all) (λ _. ok all) (ground arith) in
          check_peers-is_null rows
            (subst (λ x. check_peers w x ≡ ok tt) (ok-injective same) checked) id p found
    ]
  ]

  change-IsPreserved :
      (operation : String) (a now : Json) (rows new : Fields) (v : Json)
      → change w operation a now rows ≡ ok (new, v)
      → ((id : String) (p : Json) → lookup id rows ≡ some p → is_null p ≡ false)
      → IsPreserved rows new
  unfolding change
  change-IsPreserved operation a now rows new v h known = elim (Bool-cases (operation == "trust")) [
    | inl trusting ↦ trust-IsPreserved a now rows new v (ground arith) known
    | inr other ↦ elim (Bool-cases (operation == "authenticate")) [
      | inl entering ↦ authenticate-IsPreserved a now rows new v (ground arith)
      | inr third ↦ revoke-IsPreserved a now rows new v (ground arith)
    ]
  ]

  -- A transition of a store that `peers` accepts keeps every row of it, under its public key,
  -- revoked if it was revoked, and as secure as it was.
  pub transition-IsPreserved :
      (operation : String) (a : Json) (now : String) (raw out : Json) (rows : Fields)
      → peers w raw ≡ ok rows
      → transition w operation a now raw ≡ ok out
      → (new : Fields) × (v : Json) × (out ≡ stored w (new, v)) × IsPreserved rows new
  unfolding transition
  transition-IsPreserved operation a now raw out rows its h =
      let (old, read, h₁) = >>=-eq-ok (peers w raw) _ h in
      let (r, changed, h₂) = >>=-eq-ok (change w operation a (string now) old) _ h₁ in
      (
        r.0,
        r.1,
        sym (ok-injective h₂),
        subst (λ x. IsPreserved x r.0) (ok-injective (sym read ∙ its))
            (change-IsPreserved operation a (string now) old r.0 r.1 changed
              (peers-is_null raw old read)),
      )
