-- ===== src/Lifecycle.antt =====
-- internal/lifecycle: the leases of sessions, and the sweep that ends them.
pub mod Defs
pub mod Sessions
pub mod Sweep
mod Tests
