-- ===== src/Kernel/Assignment/State/Checks.antt =====
-- The checks of `validate_assignment_state` of kernel/src/lib.rs: a state against its event and
-- against the state before it.
use Prim.Native.String
use clinx.Prelude.{
  ℕ, ◌+◌, String, Bool, true, false, not, ◌&&◌, ◌||◌, Option, none, some, [], ◌∷◌, ◌==◌, eqb, ltb,
  all, contains, is_some_and, unwrap_or, if◌then◌else◌,
}
use clinx.Prelude.Results.{ok, err, ◌>>=◌, ensure}
use clinx.Json.{Json, Fields}
use clinx.Json.Access.{lookup, get?, as_str, as_u64, as_object, is_null, is_text}
use clinx.Json.Equality.{json_eq}
use clinx.External.{External}
use clinx.Kernel.{Checked}
use clinx.Kernel.Timestamp.{valid_timestamp}
use clinx.Kernel.Required.{path_value}
use clinx.Kernel.Assignment.{RuntimeEvent, value_text, value_integer}
use clinx.Kernel.Assignment.Legacy.{lifecycle_of}
use clinx.Kernel.Assignment.State.{
  assignment_fields, allocation_fields, attempt_fields, recovery_fields, identity_fields, Parts,
  has_text, complete, texts, Versions, versions_of,
}

abbrev check_time : Fields → String → Checked (Unit {0})
check_time mapping key =
    value_text mapping key >>= λ t. ensure (valid_timestamp t) "EVENT_TIMESTAMP_INVALID"

abbrev expected_allocation : String → String
expected_allocation event_type =
    if event_type == "AssignmentGranted" || event_type == "AssignmentRenewed"
    then "ACTIVE"
    else if event_type == "AssignmentOrphaned" || event_type == "AssignmentExpired"
    then "QUARANTINED"
    else "RELEASED"

abbrev expected_attempt : String → String
expected_attempt event_type =
    if contains
      ("AssignmentGranted" ∷ "AssignmentRenewed" ∷ "AssignmentOrphaned" ∷ "AssignmentExpired" ∷ [])
      event_type
    then "ASSIGNED"
    else if event_type == "AssignmentReleased"
    then "RELEASED"
    else "PENDING"

abbrev payload_lifecycle : Bool → Fields → String → String
payload_lifecycle legacy payload expected = elim (lookup "lifecycle" payload) [
  | none ↦ if legacy then expected else ""
  | some v ↦ unwrap_or (as_str v) (if legacy then expected else "")
]

unfoldable pub lifecycles_fit : RuntimeEvent → Fields → Bool → Parts → Checked (Unit {0})
lifecycles_fit event payload legacy p = do
  expected ← lifecycle_of event
  _ ←
      ensure
        (has_text p.assignment "lifecycle" expected
          && payload_lifecycle legacy payload expected == expected)
        "ASSIGNMENT_TRANSITION_INVALID"
  ensure
      (has_text p.allocation "lifecycle" (expected_allocation event.event_type)
        && has_text p.attempt "lifecycle" (expected_attempt event.event_type))
      "ASSIGNMENT_TRANSITION_INVALID"

abbrev quarantines : String → Bool
quarantines event_type = event_type == "AssignmentOrphaned" || event_type == "AssignmentExpired"

-- The recovery's state is the one that the type of the event asks for.
unfoldable pub recovery_allowed : String → Json → Bool
recovery_allowed event_type recovery =
    if quarantines event_type
    then is_some_and (get? recovery "state") (λ v. is_text v "PENDING")
    else if event_type == "AssignmentRecovered"
    then is_some_and (get? recovery "state") (λ v. is_text v "DONE")
    else is_null recovery

module _ (w : External) where
  -- `==` on two `Option<&Value>`.
  unfoldable pub same_value : Option Json → Option Json → Bool
  same_value none none = true
  same_value (some a) (some b) = json_eq w a b
  same_value _ _ = false

  unfoldable pub identities_fit : RuntimeEvent → Fields → Parts → Checked (Unit {0})
  identities_fit event payload p = do
    _ ←
        ensure
          (all (λ k. same_value (lookup k p.assignment) (lookup k p.allocation)) identity_fields)
          "ASSIGNMENT_IDENTITY_INVALID"
    id ← value_text p.assignment "assignment_id"
    _ ←
        ensure (id == event.stream_id && has_text payload "assignment_id" id)
          "ASSIGNMENT_IDENTITY_INVALID"
    _ ←
        ensure (same_value (lookup "attempt_id" p.attempt) (lookup "attempt_id" p.assignment))
          "ASSIGNMENT_IDENTITY_INVALID"
    _ ←
        texts p.assignment
          ("assignment_id" ∷ "attempt_id" ∷ "worker_id" ∷ "incarnation_id" ∷ "resource_key" ∷ [])
    _ ← value_text p.allocation "allocation_id"
    _ ← value_text p.attempt "attempt_id"
    ok tt

  unfoldable pub leases_fit : Parts → Checked (Unit {0})
  leases_fit p = do
    _ ← check_time p.assignment "lease_expires_at"
    _ ← check_time p.assignment "created_at"
    ensure (same_value (lookup "expires_at" p.allocation) (lookup "lease_expires_at" p.assignment))
        "ASSIGNMENT_STATE_INVALID"

  unfoldable pub recovery_object_fits : String → Parts → Fields → Checked (Unit {0})
  recovery_object_fits event_type p recovery = do
    _ ← complete recovery_fields recovery
    _ ←
        ensure (same_value (lookup "assignment_id" recovery) (lookup "assignment_id" p.assignment))
          "ASSIGNMENT_IDENTITY_INVALID"
    _ ← value_text recovery "reason"
    attempts ← value_integer recovery "attempts"
    _ ← ensure (not (quarantines event_type && not (eqb attempts 0))) "ASSIGNMENT_VERSION_INVALID"
    ensure (not (event_type == "AssignmentRecovered" && ltb attempts 1))
        "ASSIGNMENT_VERSION_INVALID"

  unfoldable pub recovery_fits : RuntimeEvent → Parts → Checked (Unit {0})
  unfolding recovery_allowed recovery_object_fits
  recovery_fits event p = do
    _ ← ensure (recovery_allowed event.event_type p.recovery) "ASSIGNMENT_STATE_INVALID"
    elim (as_object p.recovery) [
      | none ↦ ok tt
      | some fs ↦ recovery_object_fits event.event_type p fs
    ]

  -- `path_value(previous, path).and_then(Value::as_u64).unwrap()`
  unfoldable pub old_version : Json → String → Checked ℕ
  old_version previous path = elim (path_value previous path) [
    | none ↦ err "PANIC"
    | some v ↦ elim (as_u64 v) [ none ↦ err "PANIC" | some n ↦ ok n ]
  ]

  -- `u64::from(b)`
  abbrev one_if : Bool → ℕ
  one_if true = 1
  one_if false = 0

  abbrev ends_attempt : String → Bool
  ends_attempt = contains ("AssignmentRecovered" ∷ "AssignmentReleased" ∷ "AssignmentRevoked" ∷ [])

  -- The identity is the one of the state before.
  unfoldable pub keeps_identity : Parts → Json → Bool
  keeps_identity p previous =
      all
        (λ k.
          same_value (lookup k p.assignment) (path_value previous (String.◌++◌ "assignment." k)))
        identity_fields

  -- From the versions before: of the assignment, the allocation and the attempt.
  unfoldable pub versions_advance : RuntimeEvent → Bool → Versions → ℕ → ℕ → ℕ → Bool
  versions_advance event legacy v assignment allocation attempt =
      eqb v.assignment (assignment + 1)
      && (eqb v.allocation
            (allocation + one_if (not (legacy && event.event_type == "AssignmentOrphaned")))
          && eqb v.attempt (attempt + one_if (ends_attempt event.event_type)))

  unfoldable pub continues : RuntimeEvent → Bool → Parts → Versions → Json → Checked (Unit {0})
  unfolding keeps_identity versions_advance
  continues event legacy p v previous = do
    _ ← ensure (keeps_identity p previous) "ASSIGNMENT_IDENTITY_INVALID"
    old_assignment ← old_version previous "assignment.version"
    old_allocation ← old_version previous "allocation.version"
    old_attempt ← old_version previous "attempt.version"
    ensure (versions_advance event legacy v old_assignment old_allocation old_attempt)
        "ASSIGNMENT_VERSION_INVALID"

  unfoldable pub starts : RuntimeEvent → Versions → Checked (Unit {0})
  starts event v =
      ensure
        (event.event_type == "AssignmentGranted"
          && (eqb v.assignment 0 && (eqb v.allocation 0 && ltb 0 v.attempt)))
        "ASSIGNMENT_VERSION_INVALID"

  abbrev pub history_fits :
      RuntimeEvent → Bool → Parts → Versions → Option Json → Checked (Unit {0})
  history_fits event legacy p v none = starts event v
  history_fits event legacy p v (some previous) = continues event legacy p v previous

  -- All the checks of the function, in their order.
  unfoldable pub checked_parts :
      RuntimeEvent → Fields → Bool → Option Json → Parts → Checked (Unit {0})
  unfolding identities_fit leases_fit lifecycles_fit recovery_fits continues starts
  checked_parts event payload legacy previous p = do
    _ ← complete assignment_fields p.assignment
    _ ← complete allocation_fields p.allocation
    _ ← complete attempt_fields p.attempt
    _ ← identities_fit event payload p
    v ← versions_of p
    _ ← leases_fit p
    _ ← lifecycles_fit event payload legacy p
    _ ← recovery_fits event p
    history_fits event legacy p v previous
