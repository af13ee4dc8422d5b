-- ===== src/Settings.antt =====
-- internal/config/config.go: the daemon's configuration.
pub mod Defs
pub mod Validation
mod Tests
