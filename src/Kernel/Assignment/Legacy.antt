-- ===== src/Kernel/Assignment/Legacy.antt =====
-- `legacy_state` and `increment` of kernel/src/lib.rs: the state that an event without one stands
-- for, made from the state before it.
use clinx.Prelude.{ℕ, suc, String, Option, none, some, [], ◌∷◌, ◌==◌, eqb, unwrap_or, if◌then◌else◌}
use clinx.Prelude.Results.{ok, err, ◌>>=◌, ensure}
use clinx.Json.{Json, null, number, string, object, pos_int, Fields, fields_of}
use clinx.Json.Access.{lookup, insert, remove, as_str, as_object}
use clinx.Kernel.{Checked, max_safe_integer}
use clinx.Kernel.Timestamp.{valid_timestamp}
use clinx.Kernel.Required.{path_value}
use clinx.Kernel.Assignment.{RuntimeEvent, event_lifecycle, value_text, value_integer}

abbrev num : ℕ → Json
num n = number (pos_int n)

unfoldable pub increment : Fields → String → Checked Fields
increment mapping key = value_integer mapping key >>= λ old.
    if eqb old max_safe_integer
    then err "INTEGER_OUT_OF_RANGE"
    else ok (insert key (num (suc old)) mapping)

abbrev check_time : String → Checked (Unit {0})
check_time t = ensure (valid_timestamp t) "EVENT_TIMESTAMP_INVALID"

-- `state.remove(key)` as an object.
unfoldable pub take_object : Fields → String → Checked Fields
take_object state key = elim (lookup key state) [
  | none ↦ err "ASSIGNMENT_STATE_INVALID"
  | some v ↦ elim (as_object v) [ none ↦ err "ASSIGNMENT_STATE_INVALID" | some fs ↦ ok fs ]
]

-- The branch of "AssignmentGranted", its members in key order.
unfoldable pub granted_state : RuntimeEvent → Fields → Checked Json
granted_state event payload = do
  assignment_id ← value_text payload "assignment_id"
  attempt_id ← value_text payload "attempt_id"
  worker_id ← value_text payload "worker_id"
  incarnation_id ← value_text payload "incarnation_id"
  resource_key ← value_text payload "resource_key"
  allocation_id ← value_text payload "allocation_id"
  epoch ← value_integer payload "resource_epoch"
  _ ← if eqb epoch 0 then err "ASSIGNMENT_STATE_INVALID" else ok (tt {0})
  lease ← value_text payload "lease_expires_at"
  _ ← check_time lease
  ok (
      object (
        fields_of (
          (
            "allocation",
            object (
                fields_of (
                  ("allocation_id", string allocation_id)
                  ∷ ("assignment_id", string assignment_id)
                  ∷ ("attempt_id", string attempt_id)
                  ∷ ("expires_at", string lease)
                  ∷ ("incarnation_id", string incarnation_id)
                  ∷ ("lifecycle", string "ACTIVE")
                  ∷ ("release_reason", null)
                  ∷ ("resource_epoch", num epoch)
                  ∷ ("resource_key", string resource_key)
                  ∷ ("version", num 0)
                  ∷ ("worker_id", string worker_id)
                  ∷ [])),
          )
          ∷ (
            "assignment",
            object (
                fields_of (
                  ("assignment_id", string assignment_id)
                  ∷ ("attempt_id", string attempt_id)
                  ∷ ("created_at", string event.occurred_at)
                  ∷ ("incarnation_id", string incarnation_id)
                  ∷ ("lease_expires_at", string lease)
                  ∷ ("lifecycle", string "ACTIVE")
                  ∷ ("released_at", null)
                  ∷ ("resource_epoch", num epoch)
                  ∷ ("resource_key", string resource_key)
                  ∷ ("version", num 0)
                  ∷ ("worker_id", string worker_id)
                  ∷ [])),
          )
          ∷ (
            "attempt",
            object (
                fields_of (
                  ("attempt_id", string attempt_id)
                  ∷ ("lifecycle", string "ASSIGNED")
                  ∷ ("version", num 1)
                  ∷ [])),
          )
          ∷ ("recovery", null)
          ∷ ("state_version", num 1)
          ∷ [])))

-- The three objects that the other events change, and what is left of the state without them.
pub record Parts : Type 0 where
  pub state : Fields
  pub assignment : Fields
  pub allocation : Fields
  pub attempt : Fields

abbrev set : String → String → Fields → Fields
set key text = insert key (string text)

abbrev pending : String → String → Json
pending assignment_id reason = object (
    fields_of (
      ("assignment_id", string assignment_id)
      ∷ ("attempts", num 0)
      ∷ ("reason", string reason)
      ∷ ("state", string "PENDING")
      ∷ []))

-- An assignment that ends: released with its allocation, its attempt set to `lifecycle`.
unfoldable ended : RuntimeEvent → String → String → Parts → Checked Parts
ended event reason lifecycle p = do
  allocation ←
      increment (set "release_reason" reason (set "lifecycle" "RELEASED" p.allocation)) "version"
  attempt ← increment (set "lifecycle" lifecycle p.attempt) "version"
  ok (record {
    state = p.state;
    assignment = set "released_at" event.occurred_at p.assignment;
    allocation = allocation;
    attempt = attempt;
  })

unfoldable recovered : Parts → Checked Parts
recovered p = do
  recovery ← take_object p.state "recovery"
  done ← increment (set "state" "DONE" recovery) "attempts"
  ok (record {
    state = insert "recovery" (object done) p.state;
    assignment = p.assignment;
    allocation = p.allocation;
    attempt = p.attempt;
  })

unfoldable renewed : Fields → Parts → Checked Parts
renewed payload p = do
  lease ← value_text payload "lease_expires_at"
  _ ← check_time lease
  allocation ← increment (set "expires_at" lease p.allocation) "version"
  ok (record {
    state = p.state;
    assignment = set "lease_expires_at" lease p.assignment;
    allocation = allocation;
    attempt = p.attempt;
  })

abbrev quarantined : String → String → String → Parts → Parts
quarantined assignment_id why reason p = record {
  state = insert "recovery" (pending assignment_id reason) p.state;
  assignment = p.assignment;
  allocation = set "release_reason" why (set "lifecycle" "QUARANTINED" p.allocation);
  attempt = p.attempt;
}

abbrev counted_allocation : Parts → Checked Parts
counted_allocation p = increment p.allocation "version" >>= λ allocation. ok (record {
  state = p.state;
  assignment = p.assignment;
  allocation = allocation;
  attempt = p.attempt;
})

-- The `match` on the type of the event.
unfoldable pub change : RuntimeEvent → Fields → String → Parts → Checked Parts
unfolding ended recovered renewed
change event payload assignment_id p =
    if event.event_type == "AssignmentRenewed"
    then renewed payload p
    else if event.event_type == "AssignmentOrphaned"
    then ok (
        quarantined assignment_id "worker_incarnation_superseded" "worker incarnation superseded" p)
    else if event.event_type == "AssignmentExpired"
    then counted_allocation
        (quarantined assignment_id "lease_expired" "lease expired; process death not proven" p)
    else if event.event_type == "AssignmentReleased"
    then (value_text payload "reason" >>= λ reason. ended event reason "RELEASED" p)
    else if event.event_type == "AssignmentRevoked"
    then (value_text payload "reason" >>= λ reason. ended event reason "PENDING" p)
    else if event.event_type == "AssignmentRecovered"
    then (ended event "controlled_recovery" "PENDING" p >>= recovered)
    else err "PANIC"

abbrev text_or_empty : Option Json → String
text_or_empty none = ""
text_or_empty (some v) = unwrap_or (as_str v) ""

-- `event_lifecycle(&event.event_type).unwrap()`
abbrev pub lifecycle_of : RuntimeEvent → Checked String
lifecycle_of event = elim (event_lifecycle event.event_type) [ none ↦ err "PANIC" | some l ↦ ok l ]

unfoldable pub changed_state : RuntimeEvent → Fields → Json → Checked Json
changed_state event payload previous = do
  state ← elim (as_object previous) [ none ↦ err "ASSIGNMENT_STATE_INVALID" | some fs ↦ ok fs ]
  assignment_id ← value_text payload "assignment_id"
  _ ←
      ensure (assignment_id == text_or_empty (path_value previous "assignment.assignment_id"))
        "ASSIGNMENT_IDENTITY_INVALID"
  old ← take_object state "assignment"
  counted ← increment old "version"
  lifecycle ← lifecycle_of event
  allocation ← take_object (remove "assignment" state) "allocation"
  attempt ← take_object (remove "allocation" (remove "assignment" state)) "attempt"
  p ← change event payload assignment_id (record {
    state = remove "attempt" (remove "allocation" (remove "assignment" state));
    assignment = set "lifecycle" lifecycle counted;
    allocation = allocation;
    attempt = attempt;
  })
  ok (
      object (
        insert "attempt" (object p.attempt) (
          insert "allocation" (object p.allocation)
            (insert "assignment" (object p.assignment) p.state))))

unfoldable pub legacy_state : RuntimeEvent → Fields → Option Json → Checked Json
unfolding granted_state changed_state
legacy_state event payload previous =
    if event.event_type == "AssignmentGranted" then granted_state event payload else elim previous [
      | none ↦ err "ASSIGNMENT_TRANSITION_INVALID"
      | some old ↦ changed_state event payload old
    ]
