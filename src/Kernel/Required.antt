-- ===== src/Kernel/Required.antt =====
-- Reading required evidence in kernel/src/lib.rs: a dotted path leads to a text, an integer or a
-- timestamp. What is absent, null or "UNKNOWN" is noted as missing; what is malformed is an error.
use Prim.Native.String.{len}
use clinx.Prelude.{
  ℕ, String, Bool, ◌||◌, Option, none, some, List, [], ◌∷◌, ◌++◌, ◌==◌, ltb, if◌then◌else◌,
}
use clinx.Prelude.Results.{ok, err, ◌>>=◌}
use clinx.Prelude.Text.{split}
use clinx.Json.{Json}
use clinx.Json.Access.{get?, as_str, as_u64, is_null, is_text}
use clinx.Kernel.{Checked, max_safe_integer}
use clinx.Kernel.Timestamp.{valid_timestamp}

-- `path_value`, along the components of the path.
unfoldable pub follow : Json → List String → Option Json
follow v [] = some v
follow v (c ∷ cs) = elim (get? v c) [ none ↦ none | some u ↦ follow u cs ]

unfoldable pub path_value : Json → String → Option Json
unfolding follow
path_value root path = follow root (split b'.' path)

-- `value.is_null() || value.as_str() == Some("UNKNOWN")`
unfoldable pub unknown : Json → Bool
unknown v = is_null v || is_text v "UNKNOWN"

-- What is known of a path: nothing, or its value.
unfoldable pub evidence : Json → String → Option Json
unfolding unknown
evidence root path = elim (path_value root path) [
  | none ↦ none
  | some v ↦ if unknown v then none else some v
]

-- The notes on what is missing come back beside the value.
abbrev pub Noted : Type 0 → Type 0
Noted A = Checked (List String × Option A)

unfoldable pub text_of : Json → Checked String
text_of v = elim (as_str v) [
  | none ↦ err "INVALID_INPUT"
  | some s ↦ if s == "" || ltb 512 (len s) then err "INVALID_INPUT" else ok s
]

unfoldable pub integer_of : Json → Checked ℕ
integer_of v = elim (as_u64 v) [
  | none ↦ err "INVALID_INPUT"
  | some n ↦ if ltb max_safe_integer n then err "INTEGER_OUT_OF_RANGE" else ok n
]

unfoldable pub required_text : Json → String → List String → Noted String
unfolding text_of
required_text root path missing = elim (evidence root path) [
  | none ↦ ok (missing ++ path ∷ [], none)
  | some v ↦ text_of v >>= λ s. ok (missing, some s)
]

unfoldable pub required_integer : Json → String → List String → Noted ℕ
unfolding integer_of
required_integer root path missing = elim (evidence root path) [
  | none ↦ ok (missing ++ path ∷ [], none)
  | some v ↦ integer_of v >>= λ n. ok (missing, some n)
]

abbrev pub check_timestamp : List String × Option String → Noted String
check_timestamp (missing, none) = ok (missing, none)
check_timestamp (missing, some t) =
    if valid_timestamp t then ok (missing, some t) else err "INVALID_INPUT"

unfoldable pub required_timestamp : Json → String → List String → Noted String
required_timestamp root path missing = required_text root path missing >>= check_timestamp

-- A loop `for path in paths { required_…(root, path, &mut missing)?; }`
unfoldable pub require_all :
    {A : Type 0}
    → (Json → String → List String → Noted A)
    → Json
    → List String
    → List String
    → Checked (List String)
require_all read root [] missing = ok missing
require_all read root (p ∷ ps) missing = read root p missing >>= λ m. require_all read root ps m.0
