-- ===== src/Node/Scope.antt =====
-- kernel/src/node_scope.rs: what a node and its centre agree to share. The clock of the default
-- `updated_at` is an argument.
pub mod Sharing
pub mod Wire
use Prim.Native.Nat.{Ordering}
use Prim.Native.Char.{Char, code}
use Prim.Native.String
use Prim.Native.String.{compare}
use clinx.Prelude.{
  ℕ, String, Bool, true, false, not, ◌&&◌, ◌||◌, Option, none, some, List, [], ◌∷◌, ◌++◌, ◌==◌, ltb,
  leb, eqb, length, all, any, contains, unwrap_or, if◌then◌else◌,
}
use clinx.Prelude.Results.{Result, ok, err, ◌>>=◌, ensure}
use clinx.Prelude.Text.{chars, of_chars}
use clinx.Prelude.Trim.{trim, trim_chars}
use clinx.Json.{Json, bool, string, array, object, Fields, of_list, fields_of}
use clinx.Json.Access.{is_null, lookup, as_str, as_bool, is_text}
use clinx.Json.Decode.{struct_fields, as_texts, defaulted, required}

abbrev pub provider : String
provider = "codex_app_server"

pub record Scope : Type 0 where
  pub user_scope : String
  pub read_sessions : Bool
  pub execute_tasks : Bool
  pub providers : List String
  pub projects : List String
  pub revoked : Bool
  pub updated_at : String

abbrev scope_fields : List String
scope_fields =
    "user_scope" ∷ "read_sessions" ∷ "execute_tasks" ∷ "providers" ∷ "projects" ∷ "revoked"
    ∷ "updated_at" ∷ []

abbrev scope_from : String → Fields → Option Scope
scope_from now fs = elim (required as_str (lookup "user_scope" fs)) [
  | none ↦ none
  | some user_scope ↦ elim (defaulted as_bool false (lookup "read_sessions" fs)) [
    | none ↦ none
    | some read_sessions ↦ elim (defaulted as_bool false (lookup "execute_tasks" fs)) [
      | none ↦ none
      | some execute_tasks ↦ elim (defaulted as_texts (provider ∷ []) (lookup "providers" fs)) [
        | none ↦ none
        | some providers ↦ elim (defaulted as_texts ("*" ∷ []) (lookup "projects" fs)) [
          | none ↦ none
          | some projects ↦ elim (defaulted as_bool false (lookup "revoked" fs)) [
            | none ↦ none
            | some revoked ↦ elim (defaulted as_str now (lookup "updated_at" fs)) [
              | none ↦ none
              | some updated_at ↦ some (record {
                user_scope = user_scope;
                read_sessions = read_sessions;
                execute_tasks = execute_tasks;
                providers = providers;
                projects = projects;
                revoked = revoked;
                updated_at = updated_at;
              })
            ]
          ]
        ]
      ]
    ]
  ]
]

-- `serde_json::from_value`
unfoldable pub decode : String → Json → Option Scope
decode now v = elim (struct_fields scope_fields v) [ none ↦ none | some fs ↦ scope_from now fs ]

-- Neither a control character below the space nor DEL.
abbrev pub printable : Char → Bool
printable c = not (ltb (code c) b' ') && not (eqb (code c) 0x7F)

abbrev pub text_chars : ℕ → List Char → Bool
text_chars limit cs = leb (length cs) limit && all printable cs

unfoldable pub text : ℕ → String → Bool
text limit s = not (trim s == "") && text_chars limit (chars s)

-- The loop that trims the entries of a list and leaves out repetitions.
unfoldable pub normalize : ℕ → List String → List String → Option (List String)
normalize limit normalized [] = some normalized
normalize limit normalized (s ∷ ss) =
    if text limit s
    then normalize limit
        (if contains normalized (trim s) then normalized else normalized ++ trim s ∷ []) ss
    else none

abbrev pub Shared : Type 0 → Type 0
Shared A = Result String A

abbrev listed : Option (List String) → Shared (List String)
listed none = err "INVALID_SHARING_SCOPE"
listed (some ss) = ok ss

abbrev decoded : Option Scope → Shared Scope
decoded none = err "INVALID_SHARING_SCOPE"
decoded (some s) = ok s

abbrev pub user_limit : ℕ
user_limit = 256

abbrev pub provider_limit : ℕ
provider_limit = 128

abbrev pub project_limit : ℕ
project_limit = 1024

abbrev pub list_limit : ℕ
list_limit = 64

-- What `parse` does once the value has been decoded.
unfoldable pub checked : Scope → Shared Scope
unfolding normalize
checked s = do
  _ ←
      ensure
        (text user_limit s.user_scope
          && (leb (length s.providers) list_limit && leb (length s.projects) list_limit))
        "INVALID_SHARING_SCOPE"
  providers ← listed (normalize provider_limit [] s.providers)
  projects ← listed (normalize project_limit [] s.projects)
  ok (record s { user_scope = trim s.user_scope; providers = providers; projects = projects })

unfoldable pub parse : String → Json → Shared Scope
parse now v = decoded (decode now v) >>= checked

-- `optional`
unfoldable pub optional : String → Json → Shared (Option Scope)
unfolding parse
optional now v = if is_null v then ok none else (parse now v >>= λ s. ok (some s))

abbrev text_items : List String → List Json
text_items [] = []
text_items (s ∷ ss) = string s ∷ text_items ss

-- `serde_json::to_value`, in key order.
unfoldable pub value : Scope → Json
value s = object (
    fields_of (
      ("execute_tasks", bool s.execute_tasks)
      ∷ ("projects", array (of_list (text_items s.projects)))
      ∷ ("providers", array (of_list (text_items s.providers)))
      ∷ ("read_sessions", bool s.read_sessions)
      ∷ ("revoked", bool s.revoked)
      ∷ ("updated_at", string s.updated_at)
      ∷ ("user_scope", string s.user_scope)
      ∷ []))

abbrev pub is_prefix : List Char → List Char → Bool
is_prefix [] ds = true
is_prefix (c ∷ cs) [] = false
is_prefix (c ∷ cs) (d ∷ ds) = eqb (code c) (code d) && is_prefix cs ds

-- `operation.starts_with("execution.")`
unfoldable pub is_execution : String → Bool
is_execution operation = is_prefix (chars "execution.") (chars operation)

abbrev pub read_operations : List String
read_operations =
    "session.read" ∷ "session.status" ∷ "session.inventory" ∷ "observation.upload" ∷ "node.status"
    ∷ []

unfoldable pub is_read : String → Bool
is_read operation = contains read_operations operation

unfoldable pub allows : Scope → String → Bool
allows s operation =
    not s.revoked
    && (contains s.providers provider
        && (if is_execution operation
            then s.execute_tasks
            else is_read operation && s.read_sessions))

unfoldable pub project : Scope → Json → Bool
project s cwd = any (λ p. p == "*" || is_text cwd p) s.projects

-- The scope of a missing or revoked approval: `Scope::parse(&json!({…, "revoked": true}))`.
unfoldable pub revoked_scope : String → String → Shared Scope
revoked_scope now user_scope =
    parse now (object (fields_of (("revoked", bool true) ∷ ("user_scope", string user_scope) ∷ [])))

abbrev common : List String → List String → List String
common [] ds = []
common (p ∷ ps) ds = let rest = common ps ds in if contains ds p then p ∷ rest else rest

unfoldable pub common_projects : List String → List String → List String
common_projects ls cs = if contains ls "*" then cs else if contains cs "*" then ls else common ls cs

-- `a.max(b)` on texts.
abbrev later : String → String → String
later a b = elim (compare a b) [ Ordering.gt ↦ a | _ ↦ b ]

abbrev user_of : Option Scope → Option Scope → String
user_of local (some c) = c.user_scope
user_of (some l) none = l.user_scope
user_of none none = "default"

unfoldable pub both : Scope → Scope → Scope
unfolding common_projects
both l c = record {
  user_scope = c.user_scope;
  read_sessions = l.read_sessions && c.read_sessions;
  execute_tasks = l.execute_tasks && c.execute_tasks;
  providers = common l.providers c.providers;
  projects = common_projects l.projects c.projects;
  revoked = false;
  updated_at = later l.updated_at c.updated_at;
}

unfoldable pub intersect : String → Option Scope → Option Scope → Shared Scope
unfolding both
intersect now (some l) (some c) =
    if l.revoked || c.revoked
    then revoked_scope now c.user_scope
    else if not (l.user_scope == c.user_scope)
    then err "USER_SCOPE_DENIED"
    else ok (both l c)
intersect now local centre = revoked_scope now (user_of local centre)
