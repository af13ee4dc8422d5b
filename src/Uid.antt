-- ===== src/Uid.antt =====
-- internal/uid/pool.go: the pool of user ids, a buffered channel filled in ascending order.
pub mod Defs
pub mod Leases
mod Tests
