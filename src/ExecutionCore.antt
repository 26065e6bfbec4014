-- ===== src/ExecutionCore.antt =====
-- kernel/src/execution_core.rs: the frozen execution-core semantics. Every operation is a pure
-- function of the evidence that it is handed.
pub mod Contract
pub mod Evidence
pub mod Guards
pub mod Deliveries
pub mod Transition
pub mod Canonical
pub mod Receipts
pub mod Replay
use clinx.Prelude.{Bool, true, false, Option, none, some, if◌then◌else◌}

-- The verdicts, which the source spells "REJECT", "HOLD_UNKNOWN", "APPLY" and "DUPLICATE".
pub data Verdict : Type 0 where
  reject hold_unknown apply duplicate : Verdict

abbrev pub is_apply : Verdict → Bool
is_apply apply = true
is_apply _ = false

abbrev pub is_reject : Verdict → Bool
is_reject reject = true
is_reject _ = false

abbrev pub is_hold : Verdict → Bool
is_hold hold_unknown = true
is_hold _ = false

abbrev pub verdict : Bool → Verdict
verdict b = if b then apply else reject

abbrev pub known : Bool → Verdict
known b = if b then apply else hold_unknown

-- `if v != "APPLY" { return v; }`, and then the rest.
infixl 5 ◌>>◌
abbrev pub ◌>>◌ : Verdict → Verdict → Verdict
apply >> k = k
reject >> k = reject
hold_unknown >> k = hold_unknown
duplicate >> k = duplicate

-- `let (Some(a), Some(b)) = (x, y) else { … }`
abbrev pub both {ℓ κ} : {A : Type ℓ} {B : Type κ} → Option A → Option B → Option (A × B)
both none y = none
both (some a) none = none
both (some a) (some b) = some (a, b)
