-- ===== src/Pool/Tests.antt =====
-- The pool on small inputs.
use herd.Common.{
  All, ℕ, ◌≡◌, refl, true, false, List, [], ◌∷◌, some, not, one, arith, total, lookup, insert,
  delete,
}
use herd.Pool.State.{
  Worker, Config, Pool, ran, panicked, seeking, acquired, killing, kill_failed, finished, crashing,
  reporting, pinning, new, get, put, remove, is_member,
}
use herd.Pool.Acquire.{get_session}
use herd.Pool.System.{
  Event, call, turn, acquires, kills, System, Status, running, run, exec, start, step,
}
use herd.Pool.Ledger.Weights.{closes}
use herd.Pool.Flow.{Alive, IsDaemonCall}
use herd.Pool.Invariant.{IsReliableCall}
use herd.Pool.Safety.{Capped, Singleflight, run-Capped, run-Singleflight, channel_closer}
use herd.Pool.Affinity.{IsAcquire, acquire_affine}
use herd.Pool.Alone.{drive, calm, failing, IsFresh, acquire_pinned}
use herd.Pool.Faults.{kill_failure_leaks, crash_during_acquire_panics}

abbrev two : Config
two = record { max = 2; crash_handler = true }

abbrev vm : Worker
vm = record { id = 5; process = 100 }

abbrev go : ℕ → Event
go i = turn i (calm vm)

abbrev stop : ℕ → Event
stop i = turn i (failing vm)

-- Two acquires of session 5, of which the second waits for the first, and a kill of it.
abbrev story : List Event
story =
    call (acquires 5)
    ∷ call (acquires 5)
    ∷ go 0
    ∷ go 1
    ∷ go 0
    ∷ go 0
    ∷ go 0
    ∷ go 0
    ∷ go 0
    ∷ go 1
    ∷ go 1
    ∷ call (kills 5)
    ∷ go 2
    ∷ []

-- The first acquire has made its channel, and waits for a ticket.
abbrev opening : List Event
opening = call (acquires 5) ∷ go 0 ∷ []

-- The spawn of the first acquire has failed.
abbrev failure : List Event
failure = call (acquires 5) ∷ go 0 ∷ go 0 ∷ stop 0 ∷ []

abbrev both : List Event
both =
    call (acquires 5)
    ∷ call (acquires 5)
    ∷ go 0
    ∷ go 1
    ∷ go 0
    ∷ go 0
    ∷ go 0
    ∷ go 0
    ∷ go 0
    ∷ go 1
    ∷ go 1
    ∷ []

abbrev last : Status → System
last (running s) = s
last Status.dead = record { pool = unfold new in new two; tasks = [] }

story_calls : All IsDaemonCall story
story_calls = omega arith

story_deletes : All IsReliableCall story
story_deletes = ground arith

both_calls : All IsAcquire both
both_calls = omega arith

run-Capped_example : Alive (Capped 2) (run (start two) story)
run-Capped_example = run-Capped two story story_deletes

run-Singleflight_example : Alive Singleflight (run (start two) story)
run-Singleflight_example = run-Singleflight two story story_calls

channel_closer_example :
    total (closes 0) (last (run (start two) opening)).tasks
    ≡ one (not (is_member 0 (last (run (start two) opening)).pool.closed))
unfolding run exec start step new get lookup
channel_closer_example =
    channel_closer two opening (last (run (start two) opening)) 0 (omega arith) refl (omega arith)

acquire_affine_example :
    (vm ≡ vm) × (lookup 5 (last (run (start two) both)).pool.registry ≡ some vm)
unfolding run exec start step new get put is_member lookup insert delete
acquire_affine_example =
    acquire_affine two both (last (run (start two) both)) 5 0 1 vm vm both_calls refl refl refl

-- A pool with the worker of session 5 pinned.
abbrev pinned : Pool
pinned = record {
  config = two;
  registry = (5, vm) ∷ [];
  inflight = [];
  workers = vm ∷ [];
  tickets = 1;
  next_chan = 1;
  closed = 0 ∷ [];
  done = false;
}

fresh : IsFresh pinned 6
unfolding get lookup is_member
fresh = record { not_pinned = refl; not_inflight = refl; open_chan = refl }

abbrev six : Worker
six = record { id = 6; process = 101 }

acquire_pinned_example :
    (drive (calm six ∷ []) pinned (seeking 5) ≡ ran pinned (acquired 5 vm))
    × (get_session (calm six) pinned 5 ≡ some (some vm))
unfolding get lookup
acquire_pinned_example = acquire_pinned pinned 5 six vm refl

kill_failure_leaks_example :
    (drive (calm vm ∷ failing vm ∷ []) pinned (killing 5)
      ≡ ran (record pinned { registry = remove 5 pinned.registry }) (kill_failed vm))
    × (drive (calm vm ∷ []) (record pinned { registry = remove 5 pinned.registry }) (killing 5)
        ≡ ran (record pinned { registry = remove 5 pinned.registry }) finished)
unfolding get lookup
kill_failure_leaks_example = kill_failure_leaks pinned 5 vm refl

abbrev pinning_six : Pool
pinning_six = record pinned { inflight = (6, 1) ∷ []; next_chan = 2; workers = vm ∷ six ∷ [] }

crash_during_acquire_panics_example :
    let q = record pinning_six {
      registry = remove 6 pinning_six.registry;
      inflight = delete 6 pinning_six.inflight;
      closed = 1 ∷ 0 ∷ [];
    } in
    (drive (calm vm ∷ []) pinning_six (crashing 6) ≡ ran q (reporting 6))
    × (drive (calm vm ∷ calm vm ∷ []) q (pinning 6 1 six) ≡ panicked)
unfolding get lookup is_member
crash_during_acquire_panics_example =
    crash_during_acquire_panics pinning_six 6 1 vm six refl refl refl

abbrev roomy : Pool
roomy = record pinned { config = record { max = 3; crash_handler = false } }
