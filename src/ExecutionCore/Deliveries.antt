-- ===== src/ExecutionCore/Deliveries.antt =====
-- The guards of `guard` in execution_core.rs that walk the delivery ledger: "deliveries",
-- "finalizer" and "release"; and the dispatch on a guard's name.
pub mod Answers
pub mod Ledger
pub mod Outcomes
use clinx.Prelude.{
  String, Bool, true, false, not, ◌&&◌, ◌||◌, Option, none, some, List, [], ◌∷◌, ◌==◌, all, any,
  contains, unwrap_or, if◌then◌else◌,
}
use clinx.Json.{Json, string}
use clinx.Json.Access.{get?, ◌!◌, as_array, is_object, is_array, is_text, is_true}
use clinx.Json.Equality.{json_eq}
use clinx.External.{External}
use clinx.ExecutionCore.{Verdict, reject, hold_unknown, apply, is_apply, ◌>>◌}
use clinx.ExecutionCore.Evidence.{truth, bundle, outcome}
use clinx.ExecutionCore.Guards.{
  terminal_names, guard_children_resolved, guard_admission, guard_binding, guard_stopped,
  guard_event_bundle, guard_provider, guard_fence, guard_grant, guard_expired, guard_incarnation,
  guard_new_incarnation, guard_not_dispatched, guard_retry,
}

-- `f.get("committed_outcome").or_else(|| f["result"].get("outcome")).unwrap_or(target)`
unfoldable pub delivery_outcome : Json → Json → Json
delivery_outcome f target = elim (get? f "committed_outcome") [
  | none ↦ unwrap_or (get? (f ! "result") "outcome") target
  | some v ↦ v
]

-- An outcome under which a failed delivery can have been reconciled.
unfoldable pub unsuccessful : Json → Bool
unsuccessful out = is_text out "BLOCKED" || (is_text out "FAILED" || is_text out "CANCELLED")

abbrev pub run_names : List String
run_names = "execution_id" ∷ "attempt_id" ∷ []

abbrev pub host_names : List String
host_names = "execution_id" ∷ "attempt_id" ∷ "host_ref" ∷ []

-- Nothing was sent to a provider.
abbrev pub pre_send : Json → Bool
pre_send f = is_text (f ! "dispatch_certainty") "NOT_DISPATCHED"

module _ (w : External) where
  -- The two values agree on each of the named members.
  unfoldable pub agree : List String → Json → Json → Bool
  agree ks a b = all (λ k. json_eq w (a ! k) (b ! k)) ks

  -- A failed delivery that an authorised reconciliation closed.
  unfoldable pub reconciled : Json → Json → Bool
  unfolding agree unsuccessful
  reconciled r out =
      let res = r ! "resolution" in
      is_text (r ! "delivery_state") "FAILED"
      && (is_object res
          && (is_text (res ! "method") "EXISTING_AUTHORIZED_RECONCILIATION"
              && (truth w (res ! "evidence_ref")
                  && (is_text (r ! "host_completion") "KNOWN"
                      && (unsuccessful out && agree host_names res r)))))

  -- A delivery that the host completed, answered and acknowledged.
  unfoldable pub delivered : Json → Bool
  delivered r =
      is_text (r ! "host_completion") "KNOWN"
      && (truth w (r ! "host_ref")
          && (is_text (r ! "delivery_state") "DELIVERED"
              && (json_eq w (r ! "ack_host_ref") (r ! "host_ref")
                  && is_true (r ! "response_sent"))))

  -- The row names a call that no row before it has named.
  unfoldable pub fresh_call : List String → Json → Bool
  fresh_call seen r =
      is_object r
      && (truth w (r ! "call_id")
          && (not (is_array (r ! "call_id"))
              && (not (is_object (r ! "call_id"))
                  && not (contains seen (w.print (r ! "call_id"))))))

  -- The body of the loop on one row; `apply` goes on to the next row.
  unfoldable pub check_row : Json → Json → List String → Json → Verdict
  check_row f target seen r =
      if not (fresh_call seen r)
      then reject
      else if not (agree run_names r (f ! "binding"))
      then reject
      else if reconciled r (delivery_outcome f target)
      then apply
      else if delivered r
      then apply
      else hold_unknown

  unfoldable pub check_rows : Json → Json → List String → List Json → Verdict
  check_rows f target seen [] = apply
  check_rows f target seen (r ∷ rs) =
      let rest = check_rows f target (w.print (r ! "call_id") ∷ seen) rs in
      check_row f target seen r >> rest

  unfoldable pub guard_deliveries : Json → Json → Verdict
  guard_deliveries f target = elim (as_array (f ! "deliveries")) [
    | none ↦ hold_unknown
    | some rows ↦
        if not (is_true (f ! "delivery_ledger_complete")) || not (is_apply (guard_binding f))
        then hold_unknown
        else check_rows f target [] rows
  ]

  -- The result belongs to the bound execution and attempt.
  unfoldable pub result_bound : Json → Bool
  unfolding agree
  result_bound f =
      is_object (f ! "result")
      && (truth w (f ! "result" ! "result_ref") && agree run_names (f ! "result") (f ! "binding"))

  -- The outcome is the result's, and the evidence allows it.
  unfoldable pub outcome_allowed : Json → Json → Bool
  outcome_allowed f out =
      json_eq w (f ! "result" ! "outcome") out
      && (not (pre_send f && is_text out "SUCCEEDED")
          && (not (is_text out "CANCELLED" && not (is_true (f ! "cancel_requested")))
              && is_text (f ! "finalization_phase") "TERMINAL_COMMITTED"))

  -- "finalizer" and, with `release`, "release", behind the guards that both ask first.
  unfoldable pub check_result : Bool → Json → Json → Verdict
  check_result release f target =
      let out = if release then f ! "committed_outcome" else target in
      if not (result_bound f)
      then reject
      else if not (outcome out)
      then reject
      else if not (outcome_allowed f out)
      then hold_unknown
      else if not (bundle f terminal_names)
      then reject
      else if release
      then (if not (json_eq w (f ! "lease_execution_id") (f ! "binding" ! "execution_id"))
            || not (json_eq w (f ! "lease_attempt_id") (f ! "binding" ! "attempt_id"))
          then reject
          else guard_stopped f)
      else apply

  unfoldable pub guard_finalizer : Bool → Json → Json → Verdict
  guard_finalizer release f target =
      (if pre_send f then guard_not_dispatched w f else guard_provider w true f)
      >> guard_deliveries f target
      >> check_result release f target

  -- `guard(name, f, target)`; a name that no guard has is rejected.
  unfoldable pub guard : String → Json → Json → Verdict
  guard name f target =
      if name == "children_resolved"
      then guard_children_resolved f
      else if name == "admission"
      then guard_admission f
      else if name == "binding"
      then guard_binding f
      else if name == "provider_live"
      then guard_provider w false f
      else if name == "provider_terminal"
      then guard_provider w true f
      else if name == "fence"
      then guard_fence w f
      else if name == "grant"
      then guard_grant w f
      else if name == "expired"
      then guard_expired w f
      else if name == "incarnation"
      then guard_incarnation w f
      else if name == "new_incarnation"
      then guard_new_incarnation w f
      else if name == "stopped"
      then guard_stopped f
      else if name == "not_dispatched"
      then guard_not_dispatched w f
      else if name == "retry"
      then guard_retry w f
      else if name == "deliveries"
      then guard_deliveries f target
      else if name == "finalizer"
      then guard_finalizer false f target
      else if name == "release"
      then guard_finalizer true f target
      else if name == "event_bundle"
      then guard_event_bundle f
      else reject
