-- ===== src/Cli.antt =====
-- cmd/herd: the start of the daemon and the configuration that init writes.
pub mod Start
pub mod Ready
pub mod Init
pub mod Accepted
pub mod Archive
mod Tests
