-- ===== src/Network/Nat.antt =====
-- internal/network/nat.go
pub mod Defs
pub mod Mappings
pub mod Bootstrap
pub mod Taps
pub mod Tests
