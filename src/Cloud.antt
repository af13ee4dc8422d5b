-- ===== src/Cloud.antt =====
-- internal/cloud/client.go: the client of the control plane.
pub mod Client
pub mod Identity
pub mod Commands
pub mod Restart
pub mod Boot
pub mod Heartbeat
mod Tests
