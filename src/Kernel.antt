-- ===== src/Kernel.antt =====
-- kernel/src/lib.rs: the decision kernel. It answers two questions about evidence that it is handed:
-- whether a worker owns a resource, and what a stream of assignment events amounts to. An error
-- is given by its code; the messages beside the codes are not modelled.
pub mod Timestamp
pub mod Required
pub mod Ownership
pub mod Assignment
pub mod Depth
pub mod Protocol
use clinx.Prelude.{ℕ, String}
use clinx.Prelude.Results.{Result}

abbrev pub max_safe_integer : ℕ
max_safe_integer = 9007199254740991

abbrev pub Checked : Type 0 → Type 0
Checked A = Result String A
