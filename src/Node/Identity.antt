-- ===== src/Node/Identity.antt =====
-- `validate_identity` of kernel/src/node_tls.rs: a canonical node id, a display name and the version of
-- the protocol.
use Prim.Native.String.{len}
use clinx.Prelude.{
  ℕ, String, Bool, true, not, ◌&&◌, ◌||◌, none, some, List, [], ◌∷◌, ◌==◌, leb, eqb, all, any,
  contains,
}
use clinx.Prelude.Int.{pos, eqb_option}
use clinx.Prelude.Results.{Result, ok, err, ◌>>=◌, ensure}
use clinx.Prelude.Text.{chars, bytes}
use clinx.Json.{Json}
use clinx.Json.Access.{◌!◌, as_str, as_i64}
use clinx.Node.Scope.{printable, is_prefix}

abbrev is_digit : ℕ → Bool
is_digit b = leb b'0' b && leb b b'9'

abbrev is_lower : ℕ → Bool
is_lower b = leb b'a' b && leb b b'z'

abbrev id_start : ℕ → Bool
id_start b = is_lower b || is_digit b

abbrev id_byte : ℕ → Bool
id_byte b = id_start b || any (eqb b) (b'_' ∷ b'.' ∷ b'-' ∷ [])

abbrev well_spelled : List ℕ → Bool
well_spelled [] = true
well_spelled (b ∷ bs) = id_start b && all id_byte bs

-- Only digits and dots, as in an address.
abbrev is_address : List ℕ → Bool
is_address = all (λ b. eqb b b'.' || is_digit b)

unfoldable pub validate_id : String → Result String (Unit {0})
validate_id id = do
  _ ← ensure (not (id == "") && (leb (len id) 63 && well_spelled (bytes id))) "INVALID_NODE_ID"
  _ ←
      ensure
        (not (
          is_prefix (chars "workstation-") (chars id)
          || contains ("unknown" ∷ "unset" ∷ "none" ∷ "null" ∷ []) id))
        "NON_CANONICAL_NODE_ID"
  ensure (not (is_address (bytes id))) "ADDRESS_IS_NOT_IDENTITY"

unfoldable pub validate_name : String → Result String (Unit {0})
validate_name name =
    ensure (not (name == "") && (leb (len name) 120 && all printable (chars name)))
      "INVALID_DISPLAY_NAME"

abbrev text_or : Json → String → Result String String
text_or v e = elim (as_str v) [ none ↦ err e | some s ↦ ok s ]

unfoldable pub validate_identity : Json → Result String (Unit {0})
unfolding validate_id validate_name
validate_identity p = do
  id ← text_or (p ! "node_id") "INVALID_NODE_ID"
  _ ← validate_id id
  name ← text_or (p ! "display_name") "INVALID_DISPLAY_NAME"
  _ ← validate_name name
  ensure (eqb_option (as_i64 (p ! "protocol_version")) (some (pos 1)))
      "IDENTITY_OR_PROTOCOL_MISMATCH"
