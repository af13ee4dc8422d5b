-- ===== src/Network.antt =====
-- internal/network: host ports, guest addresses, and the rules and interfaces of the host.
pub mod Ports
pub mod Ipam
pub mod Nat
pub mod Bindings
