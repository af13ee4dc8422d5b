-- ===== src/Pool.antt =====
-- pool.go, registry.go, options.go and worker.go: the session-affine worker pool.
pub mod State
pub mod Registry
pub mod Acquire
pub mod Teardown
pub mod System
pub mod Ledger
pub mod Flow
pub mod Invariant
pub mod Safety
pub mod Spec
pub mod Refinement
pub mod Affinity
pub mod Alone
pub mod Faults
mod Tests
