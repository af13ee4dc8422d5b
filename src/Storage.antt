-- ===== src/Storage.antt =====
-- internal/storage: the storage of the host, and the images and snapshots of the machines.
pub mod Host
pub mod Bootstrap
pub mod Rollback
pub mod Kept
pub mod Teardown
pub mod Taken
pub mod Gone
pub mod Images
pub mod Manager
pub mod Warmed
pub mod Leases
pub mod Inject
pub mod Released
mod Sample
mod Tests
mod ImageTests
