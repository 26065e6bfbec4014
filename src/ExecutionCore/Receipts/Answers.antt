-- ===== src/ExecutionCore/Receipts/Answers.antt =====
-- What an answer to a late acknowledgement says of the delivery's row.
use clinx.Prelude.{
  String, ◌≡◌, ◌⊎◌, ◌↔◌, Bool, true, false, not, ◌&&◌, ◌||◌, List, [], ◌∷◌, arith, if◌then◌else◌,
  any, All,
}
use clinx.Json.{Json}
use clinx.Json.Access.{◌!◌, is_null, is_text, is_true}
use clinx.Json.Equality.{json_eq}
use clinx.External.{External}
use clinx.ExecutionCore.{Verdict, apply, reject, hold_unknown, duplicate}
use clinx.ExecutionCore.Evidence.{truth}
use clinx.ExecutionCore.Receipts.{ack_names, ack_differs, reconcile_ack, unidentified, differing}

-- The acknowledgement reports the success of the very delivery that was sent.
pub record IsAcknowledged (w : External) (row ack : Json) : Type 0 where
  pub sent : truth w (row ! "response_sent") ≡ true
  pub agrees :
      All (λ k. (is_null (row ! k) ≡ false) × (json_eq w (row ! k) (ack ! k) ≡ true)) ack_names
  pub succeeded : is_true (ack ! "success") ≡ true

any-false :
    (p q : String → Bool) (P : String → Type 0) (ks : List String)
    → ((k : String) → p k ≡ false → q k ≡ false → P k)
    → any p ks ≡ false
    → any q ks ≡ false
    → All P ks
any-false p q P [] f h g = tt
any-false p q P (k ∷ ks) f h g =
    (f k (ground arith) (ground arith), any-false p q P ks f (ground arith) (ground arith))

-- The chain of tests of `reconcile_ack`, by what each of them answers.
chain :
    (unknown sent resolved closed differs success : Bool) (v : Verdict)
    → (if unknown || not sent
        then hold_unknown
        else if resolved && not closed
        then reject
        else if differs
        then reject
        else if not success
        then hold_unknown
        else if closed
        then duplicate
        else apply)
      ≡ v
    → (v ≡ apply) ⊎ (v ≡ duplicate)
    → (unknown ≡ false)
      × (sent ≡ true)
      × (differs ≡ false)
      × (success ≡ true)
      × ((v ≡ duplicate) ↔ (closed ≡ true))
      × (v ≡ apply → resolved ≡ false)
chain unknown sent resolved closed differs success v h good = (
  ground arith,
  ground arith,
  ground arith,
  ground arith,
  (λ d. ground arith, λ d. ground arith),
  λ a. ground arith,
)

module _ (w : External) (row ack : Json) where
  ack_differs-same :
      (k : String) → ack_differs w row ack k ≡ false → json_eq w (row ! k) (ack ! k) ≡ true
  unfolding ack_differs
  ack_differs-same k h = ground arith

  acknowledged :
      unidentified row ≡ false
      → truth w (row ! "response_sent") ≡ true
      → differing w row ack ≡ false
      → is_true (ack ! "success") ≡ true
      → IsAcknowledged w row ack
  unfolding unidentified differing
  acknowledged known sent same success = record {
    sent = sent;
    succeeded = success;
    agrees =
        any-false (λ k. is_null (row ! k)) (ack_differs w row ack)
          (λ k. (is_null (row ! k) ≡ false) × (json_eq w (row ! k) (ack ! k) ≡ true)) ack_names
          (λ k a b. (a, ack_differs-same k b)) known same;
  }

  -- An acknowledgement applies, or is a duplicate, only if it reports the success of the delivery
  -- that was sent, with all its ids; it is a duplicate just where the row is already delivered,
  -- and a row that is resolved is not applied to.
  pub reconcile_ack-IsAcknowledged :
      (v : Verdict)
      → reconcile_ack w row ack ≡ v
      → (v ≡ apply) ⊎ (v ≡ duplicate)
      → IsAcknowledged w row ack
        × ((v ≡ duplicate) ↔ (is_text (row ! "delivery_state") "DELIVERED" ≡ true))
        × (v ≡ apply → is_text (row ! "reconciliation_state") "RESOLVED" ≡ false)
  unfolding reconcile_ack
  reconcile_ack-IsAcknowledged v h good =
      let (known, sent, same, success, repeated, unresolved) =
        chain (unidentified row) (truth w (row ! "response_sent"))
          (is_text (row ! "reconciliation_state") "RESOLVED")
          (is_text (row ! "delivery_state") "DELIVERED") (differing w row ack)
          (is_true (ack ! "success")) v h good in
      (acknowledged known sent same success, repeated, unresolved)
