-- ===== src/Network/Bindings.antt =====
-- internal/network/utils.go: port bindings as users write them, and the address of an interface.
pub mod Defs
pub mod RoundTrip
pub mod Accepted
pub mod Interface
mod Tests
