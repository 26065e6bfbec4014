-- ===== src/Tests/Sharing.antt =====
-- The theorems on the scopes of sharing, at two approvals of one user.
use clinx.Prelude.{true, false, ◌≡◌, refl, some, [], ◌∷◌, ◌&&◌}
use clinx.Prelude.Results.{ok}
use clinx.Json.{Json, string, bool, array, object, of_list, fields_of}
use clinx.Node.Scope.{Scope}
use clinx.Node.Scope.Sharing.{intersect-allows, intersect-project}
use clinx.Node.Scope.Wire.{parse-value}
use clinx.Tests.{value_of}
use clinx.Json.Access.{
  lookup, insert, remove, get?, ◌!◌, put, as_str, as_bool, as_array, as_object, is_null, is_object,
  is_array, is_string, is_number, as_i64, as_u64, is_text, is_true, is_false, is_empty_array,
}
use clinx.Json.Decode.{zip_fields, struct_fields, texts_of, as_texts}
use clinx.Prelude.Trim.{is_white, trim_start, trim_end, trim_chars, trim}
use clinx.Node.Scope.{
  decode, text, normalize, checked, parse, optional, value, is_execution, is_read, allows, project,
  revoked_scope, common_projects, both, intersect,
}

abbrev local : Scope
local = record {
  user_scope = "u";
  read_sessions = true;
  execute_tasks = true;
  providers = "codex_app_server" ∷ [];
  projects = "a" ∷ "b" ∷ [];
  revoked = false;
  updated_at = "1";
}

abbrev centre : Scope
centre = record local { execute_tasks = false; projects = "b" ∷ "c" ∷ [] }

abbrev effective : Scope
effective = value_of (intersect "0" (some local) (some centre)) local

approvals-intersect : intersect "0" (some local) (some centre) ≡ ok effective
unfolding lookup insert remove get? ◌!◌ put as_str as_bool as_array as_object is_null is_object
    is_array is_string is_number as_i64 as_u64 is_text is_true is_false is_empty_array zip_fields
    struct_fields texts_of as_texts is_white trim_start trim_end trim_chars trim decode text
    normalize checked parse optional value is_execution is_read allows project revoked_scope
    common_projects both intersect
approvals-intersect = refl

intersect-allows_example :
    allows effective "session.read" ≡ (allows local "session.read" && allows centre "session.read")
intersect-allows_example =
    intersect-allows "0" local centre effective "session.read" approvals-intersect

intersect-project_example :
    project effective (string "b") ≡ (project local (string "b") && project centre (string "b"))
intersect-project_example =
    intersect-project "0" local centre effective "b" refl approvals-intersect

abbrev sent : Json
sent =
    (object (
      fields_of (
        ("execute_tasks", (bool true))
        ∷ ("projects", (array (of_list ((string "a") ∷ (string "b") ∷ (string " a") ∷ []))))
        ∷ ("providers", (array (of_list ((string "codex_app_server") ∷ []))))
        ∷ ("read_sessions", (bool true))
        ∷ ("updated_at", (string "1"))
        ∷ ("user_scope", (string " u "))
        ∷ [])))

sent-parses : parse "0" sent ≡ ok local
unfolding lookup insert remove get? ◌!◌ put as_str as_bool as_array as_object is_null is_object
    is_array is_string is_number as_i64 as_u64 is_text is_true is_false is_empty_array zip_fields
    struct_fields texts_of as_texts is_white trim_start trim_end trim_chars trim decode text
    normalize checked parse optional value is_execution is_read allows project revoked_scope
    common_projects both intersect
sent-parses = refl

parse-value_example : parse "9" (value local) ≡ ok local
parse-value_example = parse-value "0" "9" sent local sent-parses
