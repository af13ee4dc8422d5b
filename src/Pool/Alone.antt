-- ===== src/Pool/Alone.antt =====
-- One goroutine of the pool run by itself: what `Acquire` and `KillWorker` do from start to end.
use herd.Common.{
  suc, ◌+◌, ◌-◌, ◌≤◌, ◌<◌, ◌≡◌, true, false, List, [], ◌∷◌, ◌++◌, none, some, arith, replicate,
  lookup, delete-insert,
}
use herd.Pool.State.{
  SessionId, Worker, Pool, Task, Env, Outcome, ran, blocked, panicked, seeking, acquired, refused,
  killing, finished, get, put, remove, is_member, remove_first,
}
use herd.Pool.Acquire.{get_session}
use herd.Pool.System.{step}

unfoldable pub drive : List Env → Pool → Task → Outcome
drive [] p t = ran p t
drive (e ∷ es) p t = elim (step e p t) [
  | ran q u ↦ drive es q u
  | blocked ↦ blocked
  | panicked ↦ panicked
]

-- A step in which nothing fails and no context ends; `Spawn` would return `w`.
abbrev pub calm : Worker → Env
calm w = record { cancelled = false; fail = false; undeleted = false; spawned = w }

abbrev pub failing : Worker → Env
failing w = record { cancelled = false; fail = true; undeleted = false; spawned = w }

abbrev pub cancelling : Worker → Env
cancelling w = record { cancelled = true; fail = false; undeleted = false; spawned = w }

-- `Acquire` and `GetSession` of a pinned session return its worker and change nothing.
pub acquire_pinned :
    (p : Pool) (s : SessionId) (v w : Worker)
    → get s p.registry ≡ some w
    → (drive (calm v ∷ []) p (seeking s) ≡ ran p (acquired s w))
      × (get_session (calm v) p s ≡ some (some w))
unfolding drive step get_session get
acquire_pinned p s v w h = ground arith

-- The session is neither pinned nor in flight, and the next channel is open.
pub record IsFresh (p : Pool) (s : SessionId) : Type 0 where
  pub not_pinned : get s p.registry ≡ none
  pub not_inflight : lookup s p.inflight ≡ none
  pub open_chan : is_member p.next_chan p.closed ≡ false

-- `Acquire` of a fresh session, with a ticket to be had and nothing that fails, uses one ticket,
-- tracks and pins the worker that `Spawn` returns, and leaves no entry of `inflight` behind.
pub acquire_fresh :
    (p : Pool) (s : SessionId) (w : Worker)
    → IsFresh p s
    → 0 < p.tickets
    → drive (replicate 6 (calm w)) p (seeking s)
      ≡ ran
          (record p {
            registry = put s w p.registry;
            workers = p.workers ++ w ∷ [];
            tickets = p.tickets - 1;
            next_chan = suc p.next_chan;
            closed = p.next_chan ∷ p.closed;
          })
          (acquired s w)
unfolding drive step get put
acquire_fresh p s w f h = ground (arith, f, delete-insert s p.next_chan p.inflight f.not_inflight)

-- `Acquire` of a fresh session whose `Spawn` fails, or whose context ends while it waits for a
-- ticket, returns an error and leaves the pool as it was, but for a channel made and closed.
pub acquire_failed :
    (p : Pool) (s : SessionId) (w : Worker)
    → IsFresh p s
    → 0 < p.tickets
    → p.tickets ≤ p.config.max
    → let after =
        ran (record p { next_chan = suc p.next_chan; closed = p.next_chan ∷ p.closed }) refused in
      (drive (calm w ∷ calm w ∷ failing w ∷ calm w ∷ calm w ∷ calm w ∷ []) p (seeking s) ≡ after)
      × (drive (calm w ∷ cancelling w ∷ calm w ∷ calm w ∷ []) p (seeking s) ≡ after)
unfolding drive step get
acquire_failed p s w f h m =
    ground (arith, f, delete-insert s p.next_chan p.inflight f.not_inflight)

-- `KillWorker` of a pinned session whose `Close` succeeds removes the session and its worker and
-- returns the ticket.
pub kill_pinned :
    (p : Pool) (s : SessionId) (w : Worker)
    → get s p.registry ≡ some w
    → p.tickets < p.config.max
    → drive (replicate 4 (calm w)) p (killing s)
      ≡ ran
          (record p {
            registry = remove s p.registry;
            workers = remove_first w.id p.workers;
            tickets = p.tickets + 1;
          })
          finished
unfolding drive step get remove
kill_pinned p s w h m = ground arith
