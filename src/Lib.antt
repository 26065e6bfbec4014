-- ===== src/Lib.antt =====
-- CLINX: the decision core of the kernel, as functions, and the theorems that make it correct.
--
-- The parts of kernel/src that decide, with the files they stand in. A request goes in as JSON, and
-- a verdict, an error code or a new state comes out.
--
--   kernel/src/execution_core.rs   the frozen execution core: guards over evidence, transitions of
--                                  the objects of a contract, the replay of event logs, receipts
--   kernel/src/lib.rs              the kernel: its protocol; is a worker the owner of a resource, and
--                                  what does a stream of assignment events amount to
--   kernel/src/authority_store.rs  the leases of the authority: claim, renew, release
--   kernel/src/node_scope.rs       what a node and its centre share
--   kernel/src/discovery_state.rs  pairing windows, and the store of the peers that are trusted
--   kernel/src/python_numeric.rs   the decimal syntax of Python's `int`
--   kernel/src/tunnel_supervisor.rs  when a tunnel is launched anew, and how often
--
-- Where the parts stand:
--   Prelude          tests, lists, integers of 64 bits, results, ordered maps and the
--                    order of their keys, texts
--   Json             serde_json's `Value`: its data, its readers (`get`, `as_str`, …), its `==`
--   External         what the kernel takes from elsewhere, as a record of operations: the arithmetic
--                    of f64 on bit patterns, the printer of serde_json, SHA-256
--   ExecutionCore    execution_core.rs. Contract is the lifecycle table of
--                    fixtures/execution_core_v1.json; Evidence has `py_eq`, `identity`, `bundle` and
--                    the other readers; Guards and Deliveries the arms of `guard`; Transition is
--                    `transition`; Canonical is `canonical` and `digest`; Receipts is
--                    `reconcile_ack` and `receipt_retry`; Replay is `replay`, next to
--                    which Walks and Traces follow the events of one object
--   Kernel           lib.rs. Timestamp is `validate_timestamp`; Required is `path_value` and
--                    `required_text`, `required_integer`, `required_timestamp`; Ownership is
--                    `evaluate_ownership`; Assignment is `replay_assignment`: its envelope and
--                    readers, Legacy (`legacy_state`), State (`validate_assignment_state`, its checks
--                    and the clean state that it answers with), Replay (the loop); Depth is
--                    `json_depth`; Protocol is `UniqueJson`, `parse_protocol_request` and
--                    `execute_request`, whose theorems are in Unique and Answers
--   Authority        authority_store.rs. Tables are its tables, Leases has `claim` and the release that
--                    `commit_core` makes, Renewals `renew`; Exclusive, Grants and Holders under
--                    Leases are about who holds a lease
--   Node             Scope is node_scope.rs (Sharing: intersections, Wire: the JSON form), Identity
--                    is `validate_identity` of node_tls.rs
--   Discovery        discovery_state.rs. Window has the operations on a pairing window (Pairing: who
--                    holds it, Attempts: how often it is tried), Runtime finds a window by its
--                    number, Peers is `transition` on the store of peers, Kept and Trust what it
--                    preserves
--   Numeric          python_numeric.rs: `integer_text`; Decimal is about what it answers with
--   Tunnel           tunnel_supervisor.rs. Process reads `/proc`, Supervisor is `policy`, `step` and
--                    "tunnel.launch" (Launches, Resets, Budget), Operations the rest of `invoke`,
--                    Alone what `acquire` takes over
--   Tests            concrete inputs on which the theorems are applied
--
-- State and operations. The locals of `replay` are the record ExecutionCore.Replay.Replayed, those of
-- the loop in `replay_assignment` the record Kernel.Assignment.Replay.Folded; one turn of a loop is a
-- function on the record (`replay_event`, `fold_event`). Early returns with a verdict are a chain of
-- conditionals, those with an error the monad of Prelude.Results. The contract stands between the
-- parts: `transition` reads its edges, `replay` calls `transition` on the payload of each event, and
-- `execute_request` calls `evaluate_ownership` and `replay_assignment`.
-- Stateful parts pass their state: the tables of the store (Authority.Tables.Tables), a pairing
-- window with its answer (Discovery.Window.Answered), the state and the timing of a supervisor, which
-- are JSON. Sequences of operations are a list of calls (Discovery.Window.Attempts.run) or a relation
-- (Authority.Leases.Holders.Reached, Tunnel.Supervisor.Budget.Run). The clock, random draws, `/proc`
-- and the files are handed in as arguments; a transaction that fails leaves the tables.
--
-- Bounds. The loop of `json_depth` has as fuel the number of parts of the value, which is enough as
-- each round visits one part; all other loops run over a list that is at hand. Integers of 64 bits
-- are unbounded numbers with the bound written out where the code computes (`checked_add`,
-- `max_safe_integer`, the end of a lease, which wraps around); JSON integers are read through
-- `as_i64` and `as_u64` with their range.
--
-- Not modelled: the texts of error messages (an error is its code), the parsers of JSON text,
-- certificates and base64 and the matcher of regular expressions (parameters), of authority_store.rs
-- the commit chain and `open`, of discovery_state.rs the operations on files and identities, of
-- node_scope.rs `stale`, and the parts of kernel/src that are I/O: services, transports, databases,
-- installation. An `unwrap` that the code relies on is the error "PANIC".
pub mod Prelude
pub mod Json
pub mod External
pub mod ExecutionCore
pub mod Kernel
pub mod Tests
pub mod Node
pub mod Discovery
pub mod Tunnel
pub mod Authority
pub mod Numeric
