-- ===== src/ExecutionCore/Receipts.antt =====
-- `reconcile_ack` and `receipt_retry` of execution_core.rs: what a late acknowledgement and a
-- repeated request are worth.
pub mod Answers
use clinx.Prelude.{
  String, Bool, true, false, not, ◌&&◌, ◌||◌, List, [], ◌∷◌, all, any, is_some, if◌then◌else◌,
}
use clinx.Json.{Json}
use clinx.Json.Access.{get?, ◌!◌, as_i64, is_null, is_number, is_text, is_true}
use clinx.Json.Equality.{json_eq}
use clinx.External.{External}
use clinx.ExecutionCore.{Verdict, reject, hold_unknown, apply, duplicate}
use clinx.ExecutionCore.Evidence.{truth}
use clinx.ExecutionCore.Canonical.{digest}

abbrev pub ack_names : List String
ack_names =
    "execution_id" ∷ "attempt_id" ∷ "owner_ref" ∷ "thread_id" ∷ "turn_id" ∷ "generation" ∷ "call_id"
    ∷ "namespace" ∷ "tool" ∷ "operation_id" ∷ "host_ref" ∷ []

abbrev bool_ne : Bool → Bool → Bool
bool_ne true b = not b
bool_ne false b = b

unfoldable pub unidentified : Json → Bool
unidentified row = any (λ k. is_null (row ! k)) ack_names

module _ (w : External) where
  -- The row and the acknowledgement differ at a member, in value or in the kind of a number.
  unfoldable pub ack_differs : Json → Json → String → Bool
  ack_differs row ack k =
      not (json_eq w (row ! k) (ack ! k))
      || (is_number (row ! k) && bool_ne (is_some (as_i64 (row ! k))) (is_some (as_i64 (ack ! k))))

  unfoldable pub differing : Json → Json → Bool
  unfolding ack_differs
  differing row ack = any (ack_differs row ack) ack_names

  unfoldable pub reconcile_ack : Json → Json → Verdict
  unfolding unidentified differing
  reconcile_ack row ack =
      if unidentified row || not (truth w (row ! "response_sent"))
      then hold_unknown
      else if is_text (row ! "reconciliation_state") "RESOLVED"
          && not (is_text (row ! "delivery_state") "DELIVERED")
      then reject
      else if differing row ack
      then reject
      else if not (is_true (ack ! "success"))
      then hold_unknown
      else if is_text (row ! "delivery_state") "DELIVERED"
      then duplicate
      else apply

  abbrev lacks : Json → String → Bool
  lacks v k = not (is_some (get? v k))

  unfoldable pub receipt_retry : Json → Json → Verdict
  receipt_retry original request =
      if any (lacks original) ("scope" ∷ "key" ∷ "request_hash" ∷ [])
        || any (lacks request) ("scope" ∷ "key" ∷ "semantics" ∷ [])
      then reject
      else if json_eq w (original ! "scope") (request ! "scope")
          && (json_eq w (original ! "key") (request ! "key")
              && is_text (original ! "request_hash") (digest w (request ! "semantics")))
      then duplicate
      else reject
