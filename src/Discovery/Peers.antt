-- ===== src/Discovery/Peers.antt =====
-- The store of trusted peers in kernel/src/discovery_state.rs: `public_record`, `peers` and
-- `transition`. The decoding of base64, the SHA-256 of bytes and the key of a certificate (read by
-- X.509 crates) are parameters, the clock an argument.
pub mod Kept
pub mod Trust
use clinx.Prelude.{
  ℕ, String, Bool, true, false, not, ◌&&◌, ◌||◌, Option, none, some, List, [], ◌∷◌, ◌==◌, eqb, all,
  any, contains, length, is_some, if◌then◌else◌,
}
use clinx.Prelude.Results.{Result, ok, err, ◌>>=◌, ◌>>◌, ensure}
use clinx.Json.{Json, null, number, string, object, pos_int, Fields, end, field, entries, fields_of}
use clinx.Json.Access.{
  lookup, insert, get?, ◌!◌, as_str, as_object, is_null, is_object, is_text, is_true,
}
use clinx.Json.Write.{set_member}
use clinx.Json.Equality.{json_eq}
use clinx.External.{External}
use clinx.Node.Identity.{validate_identity}

pub record Crypto : Type 0 where
  pub external : External
  pub decode64 : String → Option (List ℕ)
  pub sha256_bytes : List ℕ → String
  pub certificate_key : String → Option String

abbrev pub protocol : String
protocol = "OPAQUE-3DH-RISTRETTO255-SHA512-ARGON2I-v1"

abbrev pub Trusting : Type 0 → Type 0
Trusting A = Result String A

abbrev text_of : Json → String → Trusting String
text_of v e = elim (as_str v) [ none ↦ err e | some s ↦ ok s ]

abbrev public_names : List String
public_names = "node_id" ∷ "display_name" ∷ "public_key" ∷ "fingerprint" ∷ "protocol_version" ∷ []

-- `map.extend(…)`
abbrev extend : Fields → List (String × Json) → Fields
extend fs [] = fs
extend fs ((k, v) ∷ more) = extend (insert k v fs) more

-- `all[id]`, which is null where there is no such row.
abbrev pub row : Fields → String → Json
row fs id = object fs ! id

abbrev trust_known : Json → Bool
trust_known v = is_text v "TRUSTED" || is_text v "REVOKED"

abbrev pub status_known : Json → Bool
status_known v = is_text v "DEV_ONLY" || is_text v "OPAQUE_V1"

abbrev pub pairing_known : Json → Bool
pairing_known a = not (
    is_text (a ! "security_status") "OPAQUE_V1"
    && (not (is_text (a ! "pairing_protocol") protocol) || not (is_true (a ! "fresh_pairing"))))

module _ (w : Crypto) where
  unfoldable pub fingerprint : Json → Trusting String
  fingerprint v = do
    encoded ← text_of v "INVALID_ENCODING"
    key ← elim (w.decode64 encoded) [ none ↦ err "INVALID_ENCODING" | some bytes ↦ ok bytes ]
    _ ← ensure (eqb (length key) 32) "INVALID_PUBLIC_KEY"
    ok (w.sha256_bytes key)

  -- The answer of `public_record`, in key order.
  abbrev public_fields : Json → String → Fields
  public_fields v fp = fields_of (
      ("display_name", v ! "display_name")
      ∷ ("fingerprint", string fp)
      ∷ ("node_id", v ! "node_id")
      ∷ ("protocol_version", number (pos_int 1))
      ∷ ("public_key", v ! "public_key")
      ∷ [])

  unfoldable pub public_record : Json → Trusting Fields
  unfolding fingerprint
  public_record v = do
    _ ← ensure (is_object v && all (λ k. is_some (get? v k)) public_names) "INVALID_IDENTITY"
    _ ← validate_identity v
    fp ← fingerprint (v ! "public_key")
    _ ← ensure (is_text (v ! "fingerprint") fp) "IDENTITY_OR_PROTOCOL_MISMATCH"
    ok (public_fields v fp)

  unfoldable pub certificate : Json → Trusting String
  certificate v = do
    encoded ← text_of v "INVALID_CERTIFICATE"
    elim (w.certificate_key encoded) [ none ↦ err "INVALID_CERTIFICATE" | some key ↦ ok key ]

  -- One row of the store.
  unfoldable pub check_peer : String → Json → Trusting (Unit {0})
  unfolding public_record certificate
  check_peer id peer = do
    public ← public_record peer
    _ ←
        ensure (is_text (object public ! "node_id") id && trust_known (peer ! "trust_state"))
          "INVALID_PEER_STORE"
    key ← certificate (peer ! "certificate")
    _ ← ensure (is_text (object public ! "public_key") key) "PEER_KEY_MISMATCH"
    ensure
        (status_known (peer ! "security_status")
          && not (
              is_text (peer ! "security_status") "OPAQUE_V1"
              && not (is_text (peer ! "pairing_protocol") protocol)))
        "INVALID_PEER_SECURITY_STATUS"

  abbrev check_peers : Fields → Trusting (Unit {0})
  check_peers end = ok tt
  check_peers (field id peer fs) = check_peer id peer >> check_peers fs

  abbrev checked_rows : Fields → Trusting Fields
  checked_rows rows = check_peers rows >> ok rows

  unfoldable pub peers : Json → Trusting Fields
  unfolding check_peer
  peers v = if is_null v then ok end else elim (as_object (v ! "peers")) [
    | none ↦ err "INVALID_PEER_STORE"
    | some rows ↦ checked_rows rows
  ]

  -- Another row with the public key.
  unfoldable pub key_bound : Fields → String → Json → Bool
  key_bound fs id key =
      any (λ e. not (e.0 == id) && json_eq w.external (e.1 ! "public_key") key) (entries fs)

  abbrev same_status : Json → Json → Bool
  same_status old status = json_eq w.external (old ! "security_status") status

  -- When the peer was paired: kept under the same status, now otherwise.
  unfoldable pub paired_at : Json → Json → Json → Trusting Json
  paired_at old status now =
      if not (is_null old) && same_status old status
      then elim (get? old "paired_at") [ none ↦ err "INVALID_PEER_STORE" | some t ↦ ok t ]
      else ok now

  -- The row that "trust" writes.
  unfoldable pub trusted_peer : Fields → Json → Json → Json → Json → Json
  trusted_peer public a old paired now = object (
      extend public (
        ("certificate", a ! "certificate")
        ∷ ("friendly_name", object public ! "display_name")
        ∷ ("last_authenticated_at", old ! "last_authenticated_at")
        ∷ ("paired_at", paired)
        ∷ ("pairing_protocol", a ! "pairing_protocol")
        ∷ ("security_status", a ! "security_status")
        ∷ ("trust_state", string "TRUSTED")
        ∷ ("updated_at", now)
        ∷ []))

  -- The rows and the value that an operation answers with.
  abbrev pub Changed : Type 0
  Changed = Trusting (Fields × Json)

  -- What speaks against trust in a key under an id.
  unfoldable pub may_trust : Fields → String → Json → Json → Trusting (Unit {0})
  unfolding key_bound
  may_trust rows id key status = do
    _ ← ensure (not (key_bound rows id key)) "PUBLIC_KEY_ALREADY_BOUND"
    _ ←
        ensure
          (is_null (row rows id)
            || (json_eq w.external (row rows id ! "public_key") key
                && not (is_text (row rows id ! "trust_state") "REVOKED")))
          "IDENTITY_MISMATCH"
    ensure
        (not (is_text (row rows id ! "security_status") "OPAQUE_V1" && is_text status "DEV_ONLY"))
        "TRUST_DOWNGRADE_REJECTED"

  -- The device that asks for trust, after all that does not depend on the store.
  unfoldable pub applicant : Json → Trusting Fields
  unfolding public_record certificate
  applicant a = do
    _ ← ensure (pairing_known a) "FRESH_PRODUCTION_PAIRING_REQUIRED"
    public ← public_record (a ! "public")
    _ ← ensure (status_known (a ! "security_status")) "INVALID_PEER_SECURITY_STATUS"
    key ← certificate (a ! "certificate")
    _ ← ensure (is_text (object public ! "public_key") key) "PEER_KEY_MISMATCH"
    ok public

  unfoldable pub trust : Json → Json → Fields → Changed
  unfolding applicant may_trust trusted_peer paired_at
  trust a now rows = do
    public ← applicant a
    id ← text_of (object public ! "node_id") "PANIC"
    _ ← may_trust rows id (object public ! "public_key") (a ! "security_status")
    paired ← paired_at (row rows id) (a ! "security_status") now
    ok (insert id (trusted_peer public a (row rows id) paired now) rows, null)

  -- What speaks against the peer that asks to be let in.
  unfoldable pub may_enter : Json → Json → Trusting (Unit {0})
  may_enter a peer = do
    _ ← ensure (not (is_null peer) && is_text (peer ! "trust_state") "TRUSTED") "UNTRUSTED_DEVICE"
    _ ← ensure (json_eq w.external (peer ! "public_key") (a ! "public_key")) "IDENTITY_MISMATCH"
    ensure (not (is_text (peer ! "security_status") "DEV_ONLY" && not (is_true (a ! "allow_dev"))))
        "SECURITY_BLOCKER_DEV_ONLY"

  unfoldable pub authenticate : Json → Json → Fields → Changed
  unfolding may_enter
  authenticate a now rows = do
    id ← text_of (a ! "node_id") "UNTRUSTED_DEVICE"
    _ ← may_enter a (row rows id)
    seen ← set_member "last_authenticated_at" now (row rows id)
    peer ← set_member "updated_at" now seen
    ok (insert id peer rows, peer)

  unfoldable pub revoke : Json → Json → Fields → Changed
  revoke a now rows = do
    id ← text_of (a ! "node_id") "UNKNOWN_DEVICE"
    _ ← ensure (is_some (lookup id rows)) "UNKNOWN_DEVICE"
    revoked ← set_member "trust_state" (string "REVOKED") (row rows id)
    peer ← set_member "updated_at" now revoked
    ok (insert id peer rows, null)

  unfoldable pub change : String → Json → Json → Fields → Changed
  unfolding trust authenticate revoke
  change operation a now rows =
      if operation == "trust"
      then trust a now rows
      else if operation == "authenticate"
      then authenticate a now rows
      else if operation == "revoke"
      then revoke a now rows
      else err "DISCOVERY_OPERATION_UNKNOWN"

  -- `json!({"state": {…}, "value": result})`
  abbrev pub stored : Fields × Json → Json
  stored (rows, v) = object (
      fields_of (
        (
          "state",
          object (fields_of (("peers", object rows) ∷ ("schema_version", number (pos_int 1)) ∷ [])),
        )
        ∷ ("value", v)
        ∷ []))

  unfoldable pub transition : String → Json → String → Json → Trusting Json
  unfolding peers change
  transition operation a now raw = do
    rows ← peers raw
    r ← change operation a (string now) rows
    ok (stored r)
