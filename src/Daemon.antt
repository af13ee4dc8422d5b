-- ===== src/Daemon.antt =====
-- internal/daemon: the controller of the control plane, its counters and the platform policy.
pub mod Defs
pub mod Sessions
pub mod Api
pub mod Handlers
pub mod Runtime
pub mod Routes
pub mod Sample
mod Tests
