-- ===== src/Pool/Teardown.antt =====
-- `KillWorker`, `release`, `onCrash`, `Stats` and `Shutdown` (pool.go).
use herd.Common.{
  ℕ, ◌∷◌, [], List, Bool, true, false, Option, none, some, ◌==◌, if◌then◌else◌, lookup, delete,
  length,
}
use herd.Pool.State.{
  SessionId, Worker, Pool, Task, Env, Outcome, ran, kill_closing, kill_failed, release_closing,
  removing, reporting, reported, finished, get, remove, size, close_chan,
}

-- The error of the registry's `Delete` is ignored; the session stays pinned then.
unfoldable pub kill : Env → Pool → SessionId → Outcome
unfolding get remove
kill e p s = if e.fail then ran p finished else elim (get s p.registry) [
  | none ↦ ran p finished
  | some w ↦
      ran (record p { registry = if e.undeleted then p.registry else remove s p.registry })
        (kill_closing w)
]

-- A failing `Close` ends `KillWorker` early.
unfoldable pub kill_close : Env → Pool → Worker → Outcome
kill_close e p w = ran p (if e.fail then kill_failed w else removing w none)

unfoldable pub is_tracked : ℕ → List Worker → Bool
is_tracked i [] = false
is_tracked i (w ∷ ws) = if w.id == i then true else is_tracked i ws

-- `release`: an error of the registry's `Delete` is ignored.
unfoldable pub release : Env → Pool → SessionId → Worker → Outcome
unfolding remove is_tracked
release e p s w =
    let p' = record p { registry = if e.fail then p.registry else remove s p.registry } in
    ran p' (if is_tracked w.id p.workers then release_closing w else finished)

-- After the critical section of `onCrash`.
abbrev pub after_crash : SessionId → Option Worker → Task
after_crash s none = reporting s
after_crash s (some w) = removing w (some s)

-- `onCrash`: errors of the registry are ignored; a pending acquire of the session is dropped.
unfoldable pub crash : Env → Pool → SessionId → Outcome
unfolding get remove close_chan
crash e p s =
    let found = if e.fail then none else get s p.registry in
    let registry = if e.fail then p.registry else remove s p.registry in
    elim (lookup s p.inflight) [
      | none ↦ ran (record p { registry = registry }) (after_crash s found)
      | some ch ↦
          close_chan ch (record p { registry = registry; inflight = delete s p.inflight })
            (after_crash s found)
    ]

abbrev pub after_return : Option SessionId → Task
after_return none = finished
after_return (some s) = reporting s

unfoldable pub report : Pool → SessionId → Outcome
report p s = ran p (if p.config.crash_handler then reported s else finished)

pub record PoolStats : Type 0 where
  pub total_workers : ℕ
  pub active_sessions : ℕ
  pub inflight_acquires : ℕ

unfoldable pub stats : Pool → PoolStats
unfolding size
stats p = record {
  total_workers = length p.workers;
  active_sessions = size p.registry;
  inflight_acquires = length p.inflight;
}

-- The loop of `Shutdown`: the workers closed before the first error, and whether there was one.
unfoldable pub close_all : (Worker → Bool) → List Worker → List Worker × Bool
close_all fails [] = ([], false)
close_all fails (w ∷ ws) =
    let (closed, failed) = close_all fails ws in
    if fails w then (w ∷ [], true) else (w ∷ closed, failed)

-- `Shutdown`; `none` stands for the panic on closing `done` twice.
unfoldable pub shutdown : (Worker → Bool) → Pool → Option (Pool × List Worker × Bool)
unfolding close_all
shutdown fails p =
    let (closed, failed) = close_all fails p.workers in
    if p.done then none else some (record p { done = true }, closed, failed)
