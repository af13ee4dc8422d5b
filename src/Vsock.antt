-- ===== src/Vsock.antt =====
-- internal/vsock: the connection of the host to the agent in a machine.
pub mod Defs
pub mod Handshake
mod Tests
