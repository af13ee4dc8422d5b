-- ===== src/Pool/Ledger/Moves.antt =====
-- Each step of a goroutine keeps each account, and does not panic.
use herd.Common.{
  ℕ, ◌+◌, ◌≤◌, ◌≡◌, false, [], ◌∷◌, none, some, arith, total-append, length-append, bound, lookup,
  unbound, lookup-none, bound-insert, bound-delete, total-insert, total-delete, Option-cases, ◌≢◌,
  inl, inr,
}
use herd.Pool.State.{
  SessionId, Pool, Task, Env, Outcome, ran, blocked, panicked, seeking, dropping, signalling,
  wiring, pinning, unpinning, evicting, killing, releasing, release_closing, crashing, removing,
  returning,
}
use herd.Pool.System.{step}
use herd.Pool.Ledger.Weights.{Keeps, tickets, owners, flights, channels, rogues, has_id, pinned_id}
use herd.Pool.Ledger.Local.{Local, Owned, is_member-total, total-remove_first, length-remove_first}

-- Tickets are neither lost nor made up.
pub step-tickets :
    (e : Env) (p : Pool) (t : Task) → Local p t → Owned p t → Keeps tickets p t (step e p t)
unfolding step
step-tickets e p (wiring s ch w) l o = ground (arith, length-append {0} p.workers (w ∷ []))
step-tickets e p (evicting s w) l o =
    ground (arith, o.owned w.id, length-remove_first w.id p.workers)
step-tickets e p (removing w k) l o =
    ground (arith, o.owned w.id, length-remove_first w.id p.workers)
step-tickets e p (returning none) l o = ground arith
step-tickets e p (returning (some s)) l o = ground arith
step-tickets e p (signalling s ch none) l o = ground arith
step-tickets e p (signalling s ch (some w)) l o = ground arith
step-tickets e p (crashing s) l o = absurd (omega (arith, l.calm))
step-tickets e p (releasing s w) l o = absurd (omega (arith, l.calm))
step-tickets e p _ l o = ground arith

-- The registry's `Delete` succeeds if this is the step of `KillWorker` that calls it.
abbrev pub Deletes : Env → Task → Type 0
Deletes e (killing s) = e.undeleted ≡ false
Deletes e t = Unit {0}

-- A worker is tracked as long as it is pinned or a goroutine is to remove it.
pub step-owners :
    (i : ℕ) (e : Env) (p : Pool) (t : Task)
    → Local p t
    → Owned p t
    → Deletes e t
    → Keeps (owners i) p t (step e p t)
unfolding step
step-owners i e p (wiring s ch w) l o d = ground (arith, total-append (has_id i) p.workers (w ∷ []))
step-owners i e p (pinning s ch w) l o d = ground (
  arith,
  l.held s,
  l.exclusive s,
  unbound s p.registry,
  total-insert (pinned_id i) s w p.registry,
)
step-owners i e p (killing s) l o d = elim (Option-cases (lookup s p.registry)) [
  | inl gone ↦ ground arith
  | inr (w, found) ↦ ground (arith, l.exclusive s, total-delete (pinned_id i) s w p.registry)
]
step-owners i e p (evicting s w) l o d =
    ground (arith, o.owned w.id, total-remove_first i w.id p.workers)
step-owners i e p (removing w k) l o d =
    ground (arith, o.owned w.id, total-remove_first i w.id p.workers)
step-owners i e p (returning none) l o d = ground arith
step-owners i e p (returning (some s)) l o d = ground arith
step-owners i e p (signalling s ch none) l o d = ground arith
step-owners i e p (signalling s ch (some w)) l o d = ground arith
step-owners i e p (crashing s) l o d = absurd (omega (arith, l.calm))
step-owners i e p (releasing s w) l o d = absurd (omega (arith, l.calm))
step-owners i e p (release_closing w) l o d = absurd (omega (arith, l.calm))
step-owners i e p _ l o d = ground arith

-- An entry of `inflight` belongs to one acquire.
pub step-flights :
    (k : SessionId) (e : Env) (p : Pool) (t : Task) → Local p t → Keeps (flights k) p t (step e p t)
unfolding step
step-flights k e p (seeking s) l = ground (arith, bound-insert s k p.next_chan p.inflight)
step-flights k e p (pinning s ch w) l =
    ground (arith, l.held k, l.exclusive k, bound-delete s k p.inflight)
step-flights k e p (dropping s ch) l =
    ground (arith, l.held k, l.exclusive k, bound-delete s k p.inflight)
step-flights k e p (returning none) l = ground arith
step-flights k e p (returning (some s)) l = ground arith
step-flights k e p (signalling s ch none) l = ground arith
step-flights k e p (signalling s ch (some w)) l = ground arith
step-flights k e p (crashing s) l = absurd (omega (arith, l.calm))
step-flights k e p (releasing s w) l = absurd (omega (arith, l.calm))
step-flights k e p _ l = ground arith

-- A channel that was made is closed, or one acquire is to close it.
pub step-channels :
    (c : ℕ) (e : Env) (p : Pool) (t : Task) → Local p t → Keeps (channels c) p t (step e p t)
unfolding step
step-channels c e p (returning none) l = ground arith
step-channels c e p (returning (some s)) l = ground arith
step-channels c e p (signalling s ch none) l = ground arith
step-channels c e p (signalling s ch (some w)) l = ground arith
step-channels c e p (crashing s) l = absurd (omega (arith, l.calm))
step-channels c e p (releasing s w) l = absurd (omega (arith, l.calm))
step-channels c e p _ l = ground arith

pub step-rogues : (e : Env) (p : Pool) (t : Task) → Local p t → Keeps rogues p t (step e p t)
unfolding step
step-rogues e p (returning none) l = ground arith
step-rogues e p (returning (some s)) l = ground arith
step-rogues e p (signalling s ch none) l = ground arith
step-rogues e p (signalling s ch (some w)) l = ground arith
step-rogues e p (crashing s) l = absurd (omega (arith, l.calm))
step-rogues e p (releasing s w) l = absurd (omega (arith, l.calm))
step-rogues e p _ l = ground arith

abbrev pub IsExclusive : SessionId → Outcome → Type 0
IsExclusive k (ran q u) = bound k q.inflight + bound k q.registry ≤ 1
IsExclusive k blocked = Unit {0}
IsExclusive k panicked = Unit {0}

-- A session is never pinned and in flight at once, nor either of them twice.
pub step-IsExclusive :
    (k : SessionId) (e : Env) (p : Pool) (t : Task) → Local p t → IsExclusive k (step e p t)
unfolding step
step-IsExclusive k e p (seeking s) l = ground (
  arith,
  l.exclusive k,
  bound-insert s k p.next_chan p.inflight,
  lookup-none s p.registry,
  lookup-none s p.inflight,
)
step-IsExclusive k e p (pinning s ch w) l = ground (
  arith,
  l.exclusive k,
  l.held s,
  l.exclusive s,
  unbound s p.registry,
  bound-insert s k w p.registry,
  bound-delete s k p.inflight,
)
step-IsExclusive k e p (dropping s ch) l =
    ground (arith, l.exclusive k, bound-delete s k p.inflight)
step-IsExclusive k e p (killing s) l = ground (arith, l.exclusive k, bound-delete s k p.registry)
step-IsExclusive k e p (returning none) l = ground (arith, l.exclusive k)
step-IsExclusive k e p (returning (some s)) l = ground (arith, l.exclusive k)
step-IsExclusive k e p (signalling s ch none) l = ground (arith, l.exclusive k)
step-IsExclusive k e p (signalling s ch (some w)) l = ground (arith, l.exclusive k)
step-IsExclusive k e p (crashing s) l = absurd (omega (arith, l.calm))
step-IsExclusive k e p (releasing s w) l = absurd (omega (arith, l.calm))
step-IsExclusive k e p _ l = ground (arith, l.exclusive k)

-- No channel is closed twice.
pub step-survives : (e : Env) (p : Pool) (t : Task) → Local p t → step e p t ≢ panicked
unfolding step
step-survives e p (signalling s ch r) l =
    ground (arith, l.open_chan ch, is_member-total ch p.closed)
step-survives e p (unpinning s ch w) l = ground (arith, l.open_chan ch, is_member-total ch p.closed)
step-survives e p (crashing s) l = absurd (omega (arith, l.calm))
step-survives e p (releasing s w) l = absurd (omega (arith, l.calm))
step-survives e p _ l = ground arith

abbrev pub SameConfig : Pool → Outcome → Type 0
SameConfig p (ran q u) = q.config ≡ p.config
SameConfig p blocked = Unit {0}
SameConfig p panicked = Unit {0}

pub step-SameConfig : (e : Env) (p : Pool) (t : Task) → Local p t → SameConfig p (step e p t)
unfolding step
step-SameConfig e p (returning none) l = ground arith
step-SameConfig e p (returning (some s)) l = ground arith
step-SameConfig e p (crashing s) l = absurd (omega (arith, l.calm))
step-SameConfig e p (releasing s w) l = absurd (omega (arith, l.calm))
step-SameConfig e p _ l = ground arith
