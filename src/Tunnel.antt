-- ===== src/Tunnel.antt =====
-- kernel/src/tunnel_supervisor.rs: the recovery policy of a tunnel and its durable state.
pub mod Supervisor
pub mod Process
pub mod Operations
pub mod Alone
