-- ===== src/Observer.antt =====
-- observer: what the node reports of its memory and processors.
pub mod Defs
pub mod Memory
pub mod Cpu
mod Tests
