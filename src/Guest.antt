-- ===== src/Guest.antt =====
-- cmd/herd-guest-agent: the agent that runs as init in a machine.
pub mod Kernel
pub mod Mounts
pub mod Mounted
pub mod Network
pub mod BootArgs
pub mod Execution
pub mod Resolved
mod Tests
