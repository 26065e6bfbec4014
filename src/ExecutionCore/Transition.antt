-- ===== src/ExecutionCore/Transition.antt =====
-- `transition` of execution_core.rs: a requested lifecycle step is checked against its shape, its
-- version arithmetic, the contract's table and the guards of the one edge that fits.
pub mod Applied
pub mod Lifecycle
pub mod Safety
use clinx.Prelude.{
  String, Bool, true, false, not, ◌&&◌, ◌||◌, Option, none, some, List, [], ◌∷◌, ◌==◌, all, any,
  map, contains, is_some, is_some_and, if◌then◌else◌,
}
use clinx.Prelude.Int.{ℤ, pos, ltb_ℤ, eqb_ℤ, checked_add}
use clinx.Json.{Json, Fields, object, names}
use clinx.Json.Access.{lookup, ◌!◌, as_str, as_i64, as_object, is_object, is_text}
use clinx.Json.Equality.{json_eq}
use clinx.External.{External}
use clinx.ExecutionCore.{Verdict, reject, hold_unknown, apply, is_reject, is_hold, both}
use clinx.ExecutionCore.Contract.{Edge, ObjectContract, contract_object}
use clinx.ExecutionCore.Evidence.{text}
use clinx.ExecutionCore.Deliveries.{run_names, agree, guard}

abbrev pub request_names : List String
request_names =
    "object" ∷ "id" ∷ "from" ∷ "to" ∷ "action" ∷ "actor" ∷ "version" ∷ "next_version" ∷ "facts" ∷ []

abbrev pub fact_names : List String
fact_names =
    "unresolved_execution_ids" ∷ "commit_bundle" ∷ "binding" ∷ "observation" ∷ "now"
    ∷ "stored_owner" ∷ "presented_owner" ∷ "safety_pending" ∷ "stored_versions"
    ∷ "expected_versions" ∷ "expires_at" ∷ "allocation_state" ∷ "assignment_state"
    ∷ "previous_epoch" ∷ "used_units" ∷ "capacity_units" ∷ "capacity" ∷ "unresolved_allocation_ids"
    ∷ "current_incarnation" ∷ "presented_incarnation" ∷ "old_writer_stopped_ref"
    ∷ "side_effect_fenced_ref" ∷ "dispatch_certainty" ∷ "non_dispatch_proof" ∷ "retry_policy"
    ∷ "delivery_ledger_complete" ∷ "deliveries" ∷ "result" ∷ "committed_outcome"
    ∷ "finalization_phase" ∷ "cancel_requested" ∷ "lease_execution_id" ∷ "lease_attempt_id"
    ∷ "previous_incarnation" ∷ "previous_generation" ∷ "next_generation"
    ∷ "old_assignments_quarantined" ∷ "extensions" ∷ []

-- The members of a request: all that are required, and besides them only `extensions`.
unfoldable pub request_shaped : Json → Bool
unfolding as_object
request_shaped r = is_some_and (as_object r) (λ o.
    all (λ k. is_some (lookup k o)) request_names
    && all (λ k. contains request_names k || k == "extensions") (names o))

-- Both counters are integers, and the next is the version plus one.
unfoldable pub version_advances : Json → Bool
version_advances r = elim (both (as_i64 (r ! "version")) (as_i64 (r ! "next_version"))) [
  | none ↦ false
  | some (version, next_version) ↦
      text (r ! "id")
      && (not (ltb_ℤ version (pos 0))
          && (not (ltb_ℤ next_version (pos 1))
              && is_some_and (checked_add version (pos 1)) (λ n. eqb_ℤ n next_version)))
]

-- The edges of the table with the request's `from`, `to`, `action` and `actor`.
unfoldable pub edge_fits : Json → Edge → Bool
edge_fits r e =
    is_text (r ! "from") e.from
    && (is_text (r ! "to") e.to
        && (is_text (r ! "action") e.action && is_text (r ! "actor") e.actor))

unfoldable pub fitting : Json → List Edge → List Edge
fitting r [] = []
fitting r (e ∷ es) = let rest = fitting r es in if edge_fits r e then e ∷ rest else rest

-- The only element of a list, which `edges.len() != 1` asks for.
abbrev pub only {ℓ} : {A : Type ℓ} → List A → Option A
only [] = none
only (x ∷ []) = some x
only (x ∷ y ∷ xs) = none

unfoldable pub requested_edge : Json → Option Edge
unfolding fitting edge_fits
requested_edge r = elim (as_str (r ! "object")) [
  | none ↦ none
  | some s ↦ elim (contract_object s) [ none ↦ none | some o ↦ only (fitting r o.transitions) ]
]

unfoldable pub facts_known : Json → Bool
unfolding as_object
facts_known f = is_some_and (as_object f) (λ o. all (contains fact_names) (names o))

-- The member of the binding that carries the object's own id.
unfoldable pub id_name : Json → Option String
id_name o =
    if is_text o "Execution"
    then some "execution_id"
    else if is_text o "Attempt"
    then some "attempt_id"
    else if is_text o "ProviderSession"
    then some "provider_session_id"
    else none

abbrev pub statuses_worst : List Verdict → Verdict
statuses_worst vs =
    if any is_reject vs then reject else if any is_hold vs then hold_unknown else apply

module _ (w : External) where
  -- A bound request names its own object, and its stored owner the same run.
  unfoldable pub binding_matches : Json → Bool
  unfolding id_name agree
  binding_matches r =
      let f = r ! "facts" in
      let b = f ! "binding" in
      if is_object b
      then not (is_some_and (id_name (r ! "object")) (λ k. not (json_eq w (b ! k) (r ! "id"))))
        && not (is_object (f ! "stored_owner") && not (agree w run_names (f ! "stored_owner") b))
      else true

  unfoldable pub run_guards : List String → Json → Json → List Verdict
  run_guards [] f target = []
  run_guards (g ∷ gs) f target = guard w g f target ∷ run_guards gs f target

  unfoldable pub transition : Json → Verdict
  transition r =
      if not (request_shaped r)
      then reject
      else if not (version_advances r)
      then reject
      else elim (requested_edge r) [
        | none ↦ reject
        | some e ↦
            if not (facts_known (r ! "facts"))
            then reject
            else if not (binding_matches r)
            then reject
            else statuses_worst (run_guards e.guards (r ! "facts") (r ! "to"))
      ]
