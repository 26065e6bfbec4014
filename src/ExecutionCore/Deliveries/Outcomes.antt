-- ===== src/ExecutionCore/Deliveries/Outcomes.antt =====
-- Which outcomes the guards "finalizer" and "release" let through, and on what evidence.
use clinx.Prelude.{String, ◌≡◌, ◌⊎◌, Bool, true, false, arith, eq_refl, if◌then◌else◌}
use clinx.Json.{Json, string}
use clinx.Json.Access.{◌!◌, is_text, is_text_iff, is_true}
use clinx.Json.Equality.{json_eq}
use clinx.External.{External}
use clinx.ExecutionCore.{apply}
use clinx.ExecutionCore.Evidence.{outcome, bundle}
use clinx.ExecutionCore.Guards.{guard_not_dispatched, guard_provider, guard_stopped, terminal_names}
use clinx.ExecutionCore.Deliveries.{
  guard_deliveries, pre_send, result_bound, outcome_allowed, check_result, guard_finalizer,
}

-- The outcome that is committed: the transition's target, or the one already committed.
abbrev pub decided : Bool → Json → Json → Json
decided true f target = f ! "committed_outcome"
decided false f target = target

pub record IsFinal (w : External) (release : Bool) (f target : Json) : Type 0 where
  pub ended : (guard_not_dispatched w f ≡ apply) ⊎ (guard_provider w true f ≡ apply)
  pub ledger : guard_deliveries w f target ≡ apply
  pub owned : result_bound w f ≡ true
  pub outcome_known : outcome (decided release f target) ≡ true
  pub of_result : json_eq w (f ! "result" ! "outcome") (decided release f target) ≡ true
  -- Success needs a provider that was seen to end.
  pub success : decided release f target ≡ string "SUCCEEDED" → guard_provider w true f ≡ apply
  pub cancelled :
      decided release f target ≡ string "CANCELLED" → is_true (f ! "cancel_requested") ≡ true
  pub committed : f ! "finalization_phase" ≡ string "TERMINAL_COMMITTED"
  pub bundled : bundle f terminal_names ≡ true
  -- A release moreover belongs to the lease of the run, whose writer is stopped.
  pub released :
      release ≡ true
      → (json_eq w (f ! "lease_execution_id") (f ! "binding" ! "execution_id") ≡ true)
        × (json_eq w (f ! "lease_attempt_id") (f ! "binding" ! "attempt_id") ≡ true)
        × (guard_stopped f ≡ apply)

is_text_self : (s : String) → is_text (string s) s ≡ true
unfolding is_text
is_text_self s = eq_refl s

module _ (w : External) (f target : Json) where
  record Checked (release : Bool) : Type 0 where
    owned : result_bound w f ≡ true
    outcome_known : outcome (decided release f target) ≡ true
    allowed : outcome_allowed w f (decided release f target) ≡ true
    bundled : bundle f terminal_names ≡ true
    released :
        release ≡ true
        → (json_eq w (f ! "lease_execution_id") (f ! "binding" ! "execution_id") ≡ true)
          × (json_eq w (f ! "lease_attempt_id") (f ! "binding" ! "attempt_id") ≡ true)
          × (guard_stopped f ≡ apply)

  check_result-Checked :
      (release : Bool) → check_result w release f target ≡ apply → Checked release
  unfolding check_result
  check_result-Checked true h = record {
    owned = ground arith;
    outcome_known = ground arith;
    allowed = ground arith;
    bundled = ground arith;
    released = λ _. (ground arith, ground arith, ground arith);
  }
  check_result-Checked false h = record {
    owned = ground arith;
    outcome_known = ground arith;
    allowed = ground arith;
    bundled = ground arith;
    released = λ e. absurd (ground arith);
  }

  finalizer_parts :
      (release : Bool)
      → guard_finalizer w release f target ≡ apply
      → ((if pre_send f then guard_not_dispatched w f else guard_provider w true f) ≡ apply)
        × (guard_deliveries w f target ≡ apply)
        × (check_result w release f target ≡ apply)
  unfolding guard_finalizer
  finalizer_parts release h = (ground arith, ground arith, ground arith)

  allowed_parts :
      (out : Json)
      → outcome_allowed w f out ≡ true
      → (json_eq w (f ! "result" ! "outcome") out ≡ true)
        × (out ≡ string "SUCCEEDED" → pre_send f ≡ false)
        × (out ≡ string "CANCELLED" → is_true (f ! "cancel_requested") ≡ true)
        × (f ! "finalization_phase" ≡ string "TERMINAL_COMMITTED")
  unfolding outcome_allowed
  allowed_parts out h = (
    ground arith,
    λ e. ground (arith, e, is_text_self "SUCCEEDED"),
    λ e. ground (arith, e, is_text_self "CANCELLED"),
    is_text_iff _ _ (ground arith),
  )

  -- Where the guard "finalizer" or "release" applies, the evidence is that of a final result; a
  -- release moreover belongs to the lease of the run, whose writer is stopped.
  pub guard_finalizer-IsFinal :
      (release : Bool) → guard_finalizer w release f target ≡ apply → IsFinal w release f target
  guard_finalizer-IsFinal release h =
      let (ended, ledger, checked) = finalizer_parts release h in
      let c = check_result-Checked release checked in
      let (of_result, success, cancelled, committed) =
        allowed_parts (decided release f target) c.allowed in
      record {
        ended = ground arith;
        ledger = ledger;
        owned = c.owned;
        outcome_known = c.outcome_known;
        of_result = of_result;
        success = λ e. ground (arith, success e);
        cancelled = cancelled;
        committed = committed;
        bundled = c.bundled;
        released = c.released;
      }
