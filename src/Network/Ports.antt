-- ===== src/Network/Ports.antt =====
-- internal/network/portmgr.go: the host ports that the daemon's virtual machines use.
pub mod Defs
pub mod Allocation
mod Tests
