-- ===== src/Pool/Faults.antt =====
-- Where the pool loses a ticket, spins or panics.
use herd.Common.{
  ℕ, zero, suc, ◌+◌, ◌≤◌, ◌<◌, ◌≡◌, refl, ◌∙◌, true, false, List, [], ◌∷◌, ◌++◌, none, some, arith,
  lookup, insert, delete, lookup-insert, lookup-delete, total, length,
}
use herd.Pool.State.{
  SessionId, Worker, Pool, Env, ran, panicked, seeking, pinning, abandoned, killing, kill_failed,
  finished, crashing, reporting, releasing, get, remove, is_member, remove_first,
}
use herd.Pool.System.{step, Event, turn, exec, run}
use herd.Pool.Teardown.{is_tracked}
use herd.Pool.Ledger.Weights.{has_id}
use herd.Pool.Ledger.Local.{total-remove_first, length-remove_first}
use herd.Pool.Flow.{Alive}
use herd.Pool.Alone.{drive, calm, failing, IsFresh}

-- `KillWorker` of a pinned session whose `Close` fails forgets the session, but keeps its worker
-- tracked and its ticket taken; a second `KillWorker` of the session finds nothing to do.
pub kill_failure_leaks :
    (p : Pool) (s : SessionId) (w : Worker)
    → get s p.registry ≡ some w
    → let q = record p { registry = remove s p.registry } in
      (drive (calm w ∷ failing w ∷ []) p (killing s) ≡ ran q (kill_failed w))
      × (drive (calm w ∷ []) q (killing s) ≡ ran q finished)
unfolding drive step get remove
kill_failure_leaks p s w h = ground (arith, lookup-delete s s p.registry)

-- What a failed `Put` leaves behind for a session.
pub record IsStale (p : Pool) (s : SessionId) : Type 0 where
  pub chan : ℕ
  pub not_pinned : get s p.registry ≡ none
  pub inflight : lookup s p.inflight ≡ some chan
  pub closed : is_member chan p.closed ≡ true

-- One turn of the loop of `Acquire` after another, two steps each.
abbrev pub turns : ℕ → Env → List Env
turns zero e = []
turns (suc n) e = e ∷ e ∷ turns n e

spin_once :
    (p : Pool) (s : SessionId) (w : Worker) (es : List Env)
    → IsStale p s
    → drive (calm w ∷ calm w ∷ es) p (seeking s) ≡ drive es p (seeking s)
unfolding drive step get
spin_once p s w es h = ground (arith, h)

pub spin :
    (n : ℕ) (p : Pool) (s : SessionId) (w : Worker)
    → IsStale p s
    → drive (turns n (calm w)) p (seeking s) ≡ ran p (seeking s)
unfolding drive
spin zero p s w h = refl
spin (suc n) p s w h = spin_once p s w (turns n (calm w)) h ∙ spin n p s w h

abbrev pub failed_put : Worker → List Env
failed_put w =
    calm w ∷ calm w ∷ calm w ∷ calm w ∷ failing w ∷ calm w ∷ calm w ∷ calm w ∷ calm w ∷ []

-- The pool that an `Acquire` of a fresh session leaves behind when the registry's `Put` fails.
abbrev pub stale : Pool → SessionId → Pool
stale p s = record p {
  inflight = insert s p.next_chan p.inflight;
  next_chan = suc p.next_chan;
  closed = p.next_chan ∷ p.closed;
}

failed_put_lem :
    (p : Pool) (s : SessionId) (w : Worker)
    → IsFresh p s
    → 0 < p.tickets
    → p.tickets ≤ p.config.max
    → remove_first w.id (p.workers ++ w ∷ []) ≡ p.workers
    → drive (failed_put w) p (seeking s) ≡ ran (stale p s) (abandoned s)
unfolding drive step get
failed_put_lem p s w f h m r = ground (arith, f)

stale-IsStale : (p : Pool) (s : SessionId) → IsFresh p s → IsStale (stale p s) s
unfolding is_member
stale-IsStale p s f = record {
  chan = p.next_chan;
  not_pinned = f.not_pinned;
  inflight = ground (arith, lookup-insert s s p.next_chan p.inflight);
  closed = ground arith;
}

remove_first_snoc :
    (w : Worker) (ws : List Worker)
    → total (has_id w.id) ws ≡ 0
    → remove_first w.id (ws ++ w ∷ []) ≡ ws
unfolding remove_first
remove_first_snoc w [] h = ground arith
remove_first_snoc w (v ∷ ws) h = ground (arith, remove_first_snoc w ws)

-- When the registry's `Put` fails, for a worker whose id is new, `Acquire` returns an error and
-- leaves the entry of `inflight`, with its channel closed; every later `Acquire` of the session
-- whose context does not end is then back at the head of its loop after each turn, for ever.
pub put_failure_livelock :
    (p : Pool) (s : SessionId) (w : Worker)
    → IsFresh p s
    → 0 < p.tickets
    → p.tickets ≤ p.config.max
    → total (has_id w.id) p.workers ≡ 0
    → (drive (failed_put w) p (seeking s) ≡ ran (stale p s) (abandoned s))
      × ((n : ℕ) → drive (turns n (calm w)) (stale p s) (seeking s) ≡ ran (stale p s) (seeking s))
put_failure_livelock p s w f h m z = (
  failed_put_lem p s w f h m (remove_first_snoc w p.workers z),
  λ n. spin n (stale p s) s w (stale-IsStale p s f),
)

-- A crash reported for a session while its `Acquire` is about to pin the worker closes the channel
-- of `inflight`; the `Acquire` then pins the worker that crashed and panics on closing it again.
pub crash_during_acquire_panics :
    (p : Pool) (s ch : ℕ) (v w : Worker)
    → get s p.registry ≡ none
    → lookup s p.inflight ≡ some ch
    → is_member ch p.closed ≡ false
    → let q = record p {
      registry = remove s p.registry;
      inflight = delete s p.inflight;
      closed = ch ∷ p.closed;
    } in
      (drive (calm v ∷ []) p (crashing s) ≡ ran q (reporting s))
      × (drive (calm v ∷ calm v ∷ []) q (pinning s ch w) ≡ panicked)
unfolding drive step get remove is_member
crash_during_acquire_panics p s ch v w g i o = ground arith

-- `KillWorker` and `Session.Release` of one session, interleaved step by step.
abbrev pub race : Worker → List Event
race w =
    turn 0 (calm w)
    ∷ turn 1 (calm w)
    ∷ turn 0 (calm w)
    ∷ turn 1 (calm w)
    ∷ turn 0 (calm w)
    ∷ turn 1 (calm w)
    ∷ turn 0 (calm w)
    ∷ turn 1 (calm w)
    ∷ []

is_tracked-total : (i : ℕ) (ws : List Worker) → 0 < total (has_id i) ws → is_tracked i ws ≡ true
unfolding is_tracked
is_tracked-total i [] h = absurd (omega arith)
is_tracked-total i (w ∷ ws) h = ground (arith, is_tracked-total i ws)

remove_first_absent : (i : ℕ) (ws : List Worker) → total (has_id i) ws ≡ 0 → remove_first i ws ≡ ws
unfolding remove_first
remove_first_absent i [] h = refl
remove_first_absent i (w ∷ ws) h = ground (arith, remove_first_absent i ws)

-- When `KillWorker` and `Session.Release` of one session overlap so that both see its worker
-- tracked, one worker is removed and two tickets are returned.
pub release_race_overfills :
    (p : Pool) (s : SessionId) (w : Worker)
    → get s p.registry ≡ some w
    → total (has_id w.id) p.workers ≡ 1
    → p.tickets + 2 ≤ p.config.max
    → Alive
        (λ t. (t.pool.tickets ≡ p.tickets + 2) × (length t.pool.workers + 1 ≡ length p.workers))
        (run (record { pool = p; tasks = killing s ∷ releasing s w ∷ [] }) (race w))
unfolding run exec step get remove
release_race_overfills p s w h o m = ground (
  arith,
  is_tracked-total w.id p.workers,
  length-remove_first w.id p.workers,
  total-remove_first w.id w.id p.workers,
  remove_first_absent w.id (remove_first w.id p.workers),
)
