-- ===== src/Discovery.antt =====
-- Trust between devices: kernel/src/discovery_state.rs.
pub mod Window
pub mod Runtime
pub mod Peers
