-- ===== src/Network/Ipam.antt =====
-- internal/network/ipam.go: the allocator of guest addresses.
pub mod Defs
pub mod Bytes
pub mod Block
pub mod Allocation
pub mod InUse
mod Tests
