-- ===== src/ExecutionCore/Guards.antt =====
-- `guard` of execution_core.rs: one definition for each guard's name. A call of `guard` with another
-- name inside a guard is a call of that guard's definition.

pub mod Leases
pub mod Grants
use clinx.Prelude.{
  String, Bool, true, false, not, ◌&&◌, ◌||◌, Option, none, some, List, [], ◌∷◌, ◌==◌, all, leb,
  is_some, is_some_and, is_none_or, if◌then◌else◌,
}
use clinx.Prelude.Int.{ℤ, pos, negsuc, pos_part, neg_part, ltb_ℤ, leb_ℤ, eqb_option, checked_add}
use clinx.Json.{Json, string, number, pos_int, entries}
use clinx.Json.Access.{
  get?, ◌!◌, put, as_i64, as_object, is_null, is_object, is_text, is_true, is_false, is_empty_array,
}
use clinx.Json.Equality.{json_eq}
use clinx.External.{External}
use clinx.ExecutionCore.{Verdict, reject, hold_unknown, apply, is_apply, verdict, known, ◌>>◌, both}
use clinx.ExecutionCore.Evidence.{
  keys, py_eq, num, truth, text, int_above, identity, binding_names, owner_names, bundle, outcome,
}

unfoldable pub guard_children_resolved : Json → Verdict
guard_children_resolved f = known (is_empty_array (f ! "unresolved_execution_ids"))

abbrev pub admission_names : List String
admission_names =
    "execution" ∷ "request" ∷ "prepared" ∷ "owner" ∷ "event" ∷ "receipt" ∷ "outbox" ∷ []

abbrev pub event_names : List String
event_names = "state" ∷ "event" ∷ "receipt" ∷ "outbox" ∷ []

abbrev pub terminal_names : List String
terminal_names = "result" ∷ "terminal" ∷ "event" ∷ "receipt" ∷ "outbox" ∷ []

unfoldable pub guard_admission : Json → Verdict
guard_admission f = verdict (bundle f admission_names)

-- A turn that is not yet dispatched may have a null `turn_id`.
unfoldable pub dispatched_binding : Json → Json
dispatched_binding b =
    if is_object b && (is_null (b ! "turn_id") && is_some (get? b "turn_id"))
    then put "turn_id" (string "not-yet-dispatched") b
    else b

unfoldable pub guard_binding : Json → Verdict
unfolding dispatched_binding
guard_binding f = known (identity (dispatched_binding (f ! "binding")) binding_names)

unfoldable pub guard_stopped : Json → Verdict
guard_stopped f = known (text (f ! "old_writer_stopped_ref") && text (f ! "side_effect_fenced_ref"))

unfoldable pub guard_event_bundle : Json → Verdict
guard_event_bundle f = verdict (bundle f event_names)

abbrev pub version_names : List String
version_names = "assignment" ∷ "allocation" ∷ "resource" ∷ []

unfoldable pub allocation_live : Json → Bool
allocation_live v = is_text v "HELD" || is_text v "ACTIVE"

-- `int(x).is_some_and(|n| n >= 0)` for each member.
unfoldable pub versions_typed : Json → Bool
versions_typed v =
    is_some_and (as_object v)
      (λ o. all (λ e. is_some_and (as_i64 e.1) (λ n. leb_ℤ (pos 0) n)) (entries o))

module _ (w : External) where
  -- The observation is at most 120 seconds old, and not from the future.
  unfoldable pub is_fresh : Json → Json → Bool
  is_fresh now observed = elim (both (num w now) (num w observed)) [
    | none ↦ false
    | some (n, o) ↦
        let age = w.float_sub n o in
        w.float_le (w.of_int (pos 0)) age && w.float_le age (w.of_int (pos 120))
  ]

  -- "provider_live" and, with `terminal`, "provider_terminal".
  unfoldable pub guard_provider : Bool → Json → Verdict
  guard_provider terminal f =
      let o = f ! "observation" in
      if not (is_apply (guard_binding f))
        || not (is_object o)
        || not (identity (f ! "binding") binding_names)
        || not (py_eq w (o ! "binding") (f ! "binding"))
        || (terminal && not (is_true (o ! "complete")))
      then hold_unknown
      else if not (is_fresh (f ! "now") (o ! "observed_at"))
      then hold_unknown
      else known (
          if terminal
          then is_text (o ! "liveness") "TERMINAL"
            && py_eq w (o ! "active_claims") (number (pos_int 0))
          else is_text (o ! "liveness") "LIVE"
            && py_eq w (o ! "active_claims") (number (pos_int 1)))

  unfoldable pub guard_fence : Json → Verdict
  unfolding allocation_live versions_typed
  guard_fence f =
      let v = f ! "stored_versions" in
      if not (identity (f ! "stored_owner") owner_names)
      then hold_unknown
      else if not (py_eq w (f ! "presented_owner") (f ! "stored_owner"))
          || not (is_false (f ! "safety_pending"))
      then reject
      else if not (keys v version_names)
          || not (versions_typed v)
          || not (py_eq w (f ! "expected_versions") v)
      then reject
      else elim (both (num w (f ! "now")) (num w (f ! "expires_at"))) [
        | none ↦ hold_unknown
        | some (now, expires) ↦ verdict (
            w.float_lt now expires
            && (allocation_live (f ! "allocation_state")
                && is_text (f ! "assignment_state") "ACTIVE"))
      ]

  -- The integers of a grant: previous epoch, used units, units asked for, capacity.
  unfoldable pub grant_fits : Json → ℤ → ℤ → ℤ → ℤ → Bool
  grant_fits f p u n c =
      not (ltb_ℤ p (pos 0))
      && (eqb_option (checked_add p (pos 1)) (as_i64 (f ! "presented_owner" ! "resource_epoch"))
          && (not (ltb_ℤ u (pos 0))
              && (not (ltb_ℤ n (pos 1))
                  && (not (is_none_or (checked_add u n) (λ sum. ltb_ℤ c sum))
                      && is_empty_array (f ! "unresolved_allocation_ids")))))

  unfoldable pub guard_grant : Json → Verdict
  guard_grant f =
      if not (identity (f ! "presented_owner") owner_names)
      then reject
      else elim (both (both (as_i64 (f ! "previous_epoch")) (as_i64 (f ! "used_units")))
          (both (as_i64 (f ! "capacity_units")) (as_i64 (f ! "capacity")))) [
            | none ↦ reject
            | some ((p, u), (n, c)) ↦ if grant_fits f p u n c then guard_fence f else reject
          ]

  unfoldable pub guard_expired : Json → Verdict
  guard_expired f = elim (both (num w (f ! "now")) (num w (f ! "expires_at"))) [
    | none ↦ hold_unknown
    | some (now, expires) ↦ verdict (w.float_le expires now)
  ]

  unfoldable pub guard_incarnation : Json → Verdict
  guard_incarnation f = verdict (
      text (f ! "current_incarnation")
      && json_eq w (f ! "presented_incarnation") (f ! "current_incarnation"))

  unfoldable pub guard_new_incarnation : Json → Verdict
  guard_new_incarnation f = verdict (
      is_some_and (as_i64 (f ! "previous_generation")) (λ p.
        ltb_ℤ (pos 0) p && eqb_option (checked_add p (pos 1)) (as_i64 (f ! "next_generation")))
      && (text (f ! "presented_incarnation")
          && (not (json_eq w (f ! "presented_incarnation") (f ! "previous_incarnation"))
              && is_true (f ! "old_assignments_quarantined"))))

  unfoldable pub guard_not_dispatched : Json → Verdict
  guard_not_dispatched f =
      let p = f ! "non_dispatch_proof" in
      known (
        is_text (f ! "dispatch_certainty") "NOT_DISPATCHED"
        && (is_object p
            && (is_apply (guard_binding f)
                && (is_text (p ! "source") "dispatch_boundary"
                    && (is_text (p ! "boundary") "PRE_SEND"
                        && (truth w (p ! "evidence_ref")
                            && (json_eq w (p ! "execution_id") (f ! "binding" ! "execution_id")
                                && json_eq w (p ! "attempt_id")
                                    (f ! "binding" ! "attempt_id"))))))))

  unfoldable pub before_deadline : Json → Json → Bool
  before_deadline now deadline = elim (both (num w now) (num w deadline)) [
    | none ↦ false
    | some (n, d) ↦ w.float_lt n d
  ]

  unfoldable pub guard_retry : Json → Verdict
  unfolding before_deadline
  guard_retry f =
      let p = f ! "retry_policy" in
      guard_not_dispatched f
      >> guard_stopped f
      >> verdict (
          is_true (p ! "allowed")
          && (int_above (pos 0) (p ! "remaining")
              && (is_false (p ! "cancel_requested")
                  && before_deadline (f ! "now") (p ! "deadline_at"))))
