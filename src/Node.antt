-- ===== src/Node.antt =====
-- The sharing of a node with a centre: kernel/src/node_scope.rs.
pub mod Scope
pub mod Identity
