-- ===== src/Host.antt =====
-- The host that the daemon runs on.
pub mod Machine
pub mod Sample
