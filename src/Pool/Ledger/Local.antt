-- ===== src/Pool/Ledger/Local.antt =====
-- What the accounts say about one goroutine and the pool, which is what its next step relies on.
use herd.Common.{
  ℕ, ◌+◌, ◌≤◌, ◌<◌, ◌≡◌, refl, true, false, List, [], ◌∷◌, ◌==◌, ltb, one, arith, total, length,
  bound,
}
use herd.Pool.State.{SessionId, Worker, Pool, Task, is_member, remove_first}
use herd.Pool.Ledger.Weights.{in_hand, owns, holds, closes, rogue, has_id, is_chan}

pub record Local (p : Pool) (t : Task) : Type 0 where
  pub held : (s : SessionId) → holds s t ≤ bound s p.inflight
  pub open_chan : (c : ℕ) → closes c t + total (is_chan c) p.closed ≤ one (ltb c p.next_chan)
  pub exclusive : (s : SessionId) → bound s p.inflight + bound s p.registry ≤ 1
  pub calm : rogue t ≡ 0

-- The same for tickets and workers.
pub record Owned (p : Pool) (t : Task) : Type 0 where
  pub ticket : in_hand t + (p.tickets + length p.workers) ≤ p.config.max
  pub owned : (i : ℕ) → owns i t ≤ total (has_id i) p.workers

pub is_member-total : (c : ℕ) (ds : List ℕ) → is_member c ds ≡ true → 0 < total (is_chan c) ds
unfolding is_member
is_member-total c [] h = cc
is_member-total c (d ∷ ds) h = ground (arith, is_member-total c ds)

pub not-member-total : (c : ℕ) (ds : List ℕ) → is_member c ds ≡ false → total (is_chan c) ds ≡ 0
unfolding is_member
not-member-total c [] h = refl
not-member-total c (d ∷ ds) h = ground (arith, not-member-total c ds)

-- Removing a tracked worker removes one of its id.
pub total-remove_first :
    (i j : ℕ) (ws : List Worker)
    → 0 < total (has_id j) ws
    → total (has_id i) (remove_first j ws) + one (j == i) ≡ total (has_id i) ws
unfolding remove_first
total-remove_first i j [] h = absurd (omega arith)
total-remove_first i j (w ∷ ws) h = ground (arith, total-remove_first i j ws)

pub length-remove_first :
    (j : ℕ) (ws : List Worker)
    → 0 < total (has_id j) ws
    → length (remove_first j ws) + 1 ≡ length ws
unfolding remove_first
length-remove_first j [] h = absurd (omega arith)
length-remove_first j (w ∷ ws) h = ground (arith, length-remove_first j ws)
