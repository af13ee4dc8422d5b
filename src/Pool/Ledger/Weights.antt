-- ===== src/Pool/Ledger/Weights.antt =====
-- What a goroutine inside a pool method holds, by the point that it has reached.
use herd.Common.{
  ℕ, ◌+◌, ◌≡◌, List, some, ◌==◌, ltb, one, arith, get_elem?, set, total, total-set, length, bound,
}
use herd.Pool.State.{
  SessionId, Worker, Pool, Task, Outcome, ran, blocked, panicked, queued, spawning, refunding,
  dropping, signalling, wiring, pinning, unpinning, discarding, evicting, repaying, abandoned,
  kill_closing, kill_failed, releasing, release_closing, crashing, removing, returning,
}

-- 1 between taking a ticket and tracking the worker, and between untracking it and returning the
-- ticket.
abbrev pub in_hand : Task → ℕ
in_hand (spawning s ch) = 1
in_hand (refunding s ch) = 1
in_hand (wiring s ch w) = 1
in_hand (repaying s) = 1
in_hand (returning k) = 1
in_hand _ = 0

-- 1 for a goroutine that is to remove a worker of this id from `workers`.
abbrev pub owns : ℕ → Task → ℕ
owns i (pinning s ch w) = one (w.id == i)
owns i (unpinning s ch w) = one (w.id == i)
owns i (discarding s w) = one (w.id == i)
owns i (evicting s w) = one (w.id == i)
owns i (kill_closing w) = one (w.id == i)
owns i (kill_failed w) = one (w.id == i)
owns i (removing w k) = one (w.id == i)
owns i _ = 0

-- 1 for the acquire that made the session's entry of `inflight`.
abbrev pub holds : SessionId → Task → ℕ
holds s (queued r ch) = one (r == s)
holds s (spawning r ch) = one (r == s)
holds s (refunding r ch) = one (r == s)
holds s (dropping r ch) = one (r == s)
holds s (wiring r ch w) = one (r == s)
holds s (pinning r ch w) = one (r == s)
holds s (unpinning r ch w) = one (r == s)
holds s (discarding r w) = one (r == s)
holds s (evicting r w) = one (r == s)
holds s (repaying r) = one (r == s)
holds s (abandoned r) = one (r == s)
holds s _ = 0

-- 1 for the acquire that is to close this channel.
abbrev pub closes : ℕ → Task → ℕ
closes c (queued s ch) = one (ch == c)
closes c (spawning s ch) = one (ch == c)
closes c (refunding s ch) = one (ch == c)
closes c (dropping s ch) = one (ch == c)
closes c (signalling s ch r) = one (ch == c)
closes c (wiring s ch w) = one (ch == c)
closes c (pinning s ch w) = one (ch == c)
closes c (unpinning s ch w) = one (ch == c)
closes c _ = 0

-- 1 for a goroutine inside `onCrash` or `release` that has not yet taken over a worker.
abbrev pub rogue : Task → ℕ
rogue (releasing s w) = 1
rogue (release_closing w) = 1
rogue (crashing s) = 1
rogue _ = 0

abbrev pub has_id : ℕ → Worker → ℕ
has_id i w = one (w.id == i)

abbrev pub pinned_id : ℕ → ℕ × Worker → ℕ
pinned_id i (s, w) = one (w.id == i)

abbrev pub is_chan : ℕ → ℕ → ℕ
is_chan c d = one (d == c)

-- A balance sheet: what the goroutines hold and the pool's `down` make up the pool's `up`.
pub record Ledger : Type 0 where
  pub weight : Task → ℕ
  pub down : Pool → ℕ
  pub up : Pool → ℕ

abbrev pub tickets : Ledger
tickets = record {
  weight = in_hand;
  down = λ p. p.tickets + length p.workers;
  up = λ p. p.config.max;
}

abbrev pub owners : ℕ → Ledger
owners i = record {
  weight = owns i;
  down = λ p. total (pinned_id i) p.registry;
  up = λ p. total (has_id i) p.workers;
}

abbrev pub flights : SessionId → Ledger
flights s = record { weight = holds s; down = λ p. 0; up = λ p. bound s p.inflight }

abbrev pub channels : ℕ → Ledger
channels c = record {
  weight = closes c;
  down = λ p. total (is_chan c) p.closed;
  up = λ p. one (ltb c p.next_chan);
}

abbrev pub rogues : Ledger
rogues = record { weight = rogue; down = λ p. 0; up = λ p. 0 }

abbrev pub IsBalanced : Ledger → Pool → List Task → Type 0
IsBalanced l p ts = total l.weight ts + l.down p ≡ l.up p

-- A step changes what the goroutine holds as much as the pool's two sides.
abbrev pub Keeps : Ledger → Pool → Task → Outcome → Type 0
Keeps l p t (ran q u) = l.weight u + l.down q + l.up p ≡ l.weight t + l.down p + l.up q
Keeps l p t blocked = Unit {0}
Keeps l p t panicked = Unit {0}

pub Keeps-IsBalanced :
    (l : Ledger) (p q : Pool) (ts : List Task) (i : ℕ) (t u : Task)
    → get_elem? ts i ≡ some t
    → Keeps l p t (ran q u)
    → IsBalanced l p ts
    → IsBalanced l q (set ts i u)
Keeps-IsBalanced l p q ts i t u e k b = omega (arith, total-set l.weight ts i t u e)
