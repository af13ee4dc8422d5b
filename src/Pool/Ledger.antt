-- ===== src/Pool/Ledger.antt =====
-- Accounts over the goroutines inside the pool: what each of them holds, against the pool's state.
pub mod Weights
pub mod Local
pub mod Moves
