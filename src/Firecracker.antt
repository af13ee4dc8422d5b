-- ===== src/Firecracker.antt =====
-- firecracker_factory.go
pub mod Defs
pub mod Spawn
pub mod Stages
pub mod Unwind
pub mod Rollback
pub mod Pools
pub mod Leases
pub mod Close
pub mod Balance
pub mod Tests
