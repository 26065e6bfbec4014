-- ===== src/Kernel/Assignment/State/Clean.antt =====
-- `validate_assignment_state` of kernel/src/lib.rs: the state that an event carries is checked and
-- stripped of the members that are not known, which are reported.
use Prim.Native.String
use clinx.Prelude.{String, Bool, Option, List, [], ◌∷◌, ◌++◌, contains, unwrap_or, if◌then◌else◌}
use clinx.Prelude.Results.{ok, ◌>>=◌}
use clinx.Prelude.Text.{sort_texts, dedup}
use clinx.Json.{Json, null, number, object, pos_int, Fields, end, names, fields_of}
use clinx.Json.Access.{lookup, insert}
use clinx.External.{External}
use clinx.Kernel.{Checked}
use clinx.Kernel.Assignment.{RuntimeEvent}
use clinx.Kernel.Assignment.Legacy.{legacy_state}
use clinx.Kernel.Assignment.State.{
  assignment_fields, allocation_fields, attempt_fields, recovery_fields, Parts, is_legacy, parts_of,
}
use clinx.Kernel.Assignment.State.Checks.{checked_parts}

-- The members of a map that are not known, with the prefix of their path.
unfoldable pub strays : String → List String → List String → List String
strays prefix known [] = []
strays prefix known (k ∷ ks) =
    let rest = strays prefix known ks in
    if contains known k then rest else String.◌++◌ prefix k ∷ rest

abbrev recovery_strays : Json → List String
recovery_strays (object fs) = strays "state.recovery." recovery_fields (names fs)
recovery_strays _ = []

unfoldable pub unknown_members : Fields → Bool → Parts → List String
unfolding strays
unknown_members payload legacy p = dedup (
    sort_texts (
      strays "state." ("state_version" ∷ "assignment" ∷ "allocation" ∷ "attempt" ∷ "recovery" ∷ [])
        (names p.state)
      ++ (strays "state.assignment." assignment_fields (names p.assignment)
          ++ (strays "state.allocation." allocation_fields (names p.allocation)
              ++ (strays "state.attempt." attempt_fields (names p.attempt)
                  ++ (recovery_strays p.recovery
                      ++ (if legacy
                          then []
                          else strays "payload."
                              ("assignment_id" ∷ "lifecycle" ∷ "state" ∷ "reason" ∷ [])
                              (names payload))))))))

-- The known members, collected into a map; `mapping[field]` is there once `complete` has passed.
unfoldable pub pick : List String → Fields → Fields
pick [] mapping = end
pick (k ∷ ks) mapping = insert k (unwrap_or (lookup k mapping) null) (pick ks mapping)

abbrev clean_recovery : Json → Json
clean_recovery (object fs) = object (pick recovery_fields fs)
clean_recovery _ = null

unfoldable pub clean : Parts → Json
clean p = object (
    fields_of (
      ("allocation", object (pick allocation_fields p.allocation))
      ∷ ("assignment", object (pick assignment_fields p.assignment))
      ∷ ("attempt", object (pick attempt_fields p.attempt))
      ∷ ("recovery", clean_recovery p.recovery)
      ∷ ("state_version", number (pos_int 1))
      ∷ []))

abbrev pub raw_state : RuntimeEvent → Fields → Option Json → Checked Json
raw_state event payload previous =
    if is_legacy payload
    then legacy_state event payload previous
    else ok (unwrap_or (lookup "state" payload) null)

unfoldable pub validate_assignment_state :
    External → RuntimeEvent → Fields → Option Json → Checked (Json × List String)
unfolding checked_parts
validate_assignment_state w event payload previous = do
  raw ← raw_state event payload previous
  p ← parts_of raw
  _ ← checked_parts w event payload (is_legacy payload) previous p
  ok (clean p, unknown_members payload (is_legacy payload) p)
