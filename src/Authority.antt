-- ===== src/Authority.antt =====
-- kernel/src/authority_store.rs: the store of the authority, of which the leases are modelled.
pub mod Tables
pub mod Leases
pub mod Renewals
