-- ===== src/Pool/System.antt =====
-- Goroutines inside the pool's methods, interleaved. One step runs a goroutine up to the next
-- point where the mutex is dropped or a channel is used.
use herd.Common.{ℕ, ◌++◌, ◌∷◌, [], List, none, some, get_elem?, set}
use herd.Pool.State.{
  SessionId, Worker, Config, Pool, Task, Env, Outcome, ran, blocked, panicked, seeking, waiting,
  queued, spawning, refunding, dropping, signalling, wiring, pinning, unpinning, discarding,
  evicting, repaying, abandoned, killing, kill_closing, releasing, release_closing, crashing,
  removing, returning, reporting, new, close_chan, send_ticket, remove_worker,
}
use herd.Pool.Acquire.{seek, wait, take_ticket, spawn, drop_flight, result, wire_worker, pin}
use herd.Pool.Teardown.{kill, kill_close, release, crash, after_return, report}

-- One step of a goroutine. A method that has returned stays as it is.
unfoldable pub step : Env → Pool → Task → Outcome
unfolding seek wait take_ticket spawn drop_flight wire_worker pin kill kill_close release crash
    report close_chan send_ticket remove_worker
step e p (seeking s) = seek e p s
step e p (waiting s ch) = wait e p s ch
step e p (queued s ch) = take_ticket e p s ch
step e p (spawning s ch) = spawn e p s ch
step e p (refunding s ch) = send_ticket p (dropping s ch)
step e p (dropping s ch) = drop_flight p s ch
step e p (signalling s ch r) = close_chan ch p (result s r)
step e p (wiring s ch w) = wire_worker p s ch w
step e p (pinning s ch w) = pin e p s ch w
step e p (unpinning s ch w) = close_chan ch p (discarding s w)
step e p (discarding s w) = ran p (evicting s w)
step e p (evicting s w) = ran (remove_worker w p) (repaying s)
step e p (repaying s) = send_ticket p (abandoned s)
step e p (killing s) = kill e p s
step e p (kill_closing w) = kill_close e p w
step e p (releasing s w) = release e p s w
step e p (release_closing w) = ran p (removing w none)
step e p (crashing s) = crash e p s
step e p (removing w k) = ran (remove_worker w p) (returning k)
step e p (returning k) = send_ticket p (after_return k)
step e p (reporting s) = report p s
step e p t = ran p t

-- A call of one of the pool's methods, in a goroutine of its own.
pub data Call : Type 0 where
  acquires : SessionId → Call
  kills : SessionId → Call
  releases : SessionId → Worker → Call
  crashes : SessionId → Call

abbrev pub entry : Call → Task
entry (acquires s) = seeking s
entry (kills s) = killing s
entry (releases s w) = releasing s w
entry (crashes s) = crashing s

pub data Event : Type 0 where
  call : Call → Event
  turn : ℕ → Env → Event

pub record System : Type 0 where
  pub pool : Pool
  pub tasks : List Task

-- A panic in a goroutine ends the process.
pub data Status : Type 0 where
  running : System → Status
  dead : Status

abbrev pub settle : System → ℕ → Outcome → Status
settle s i (ran p t) = running (record { pool = p; tasks = set s.tasks i t })
settle s i blocked = running s
settle s i panicked = dead

unfoldable pub exec : System → Event → Status
exec s (call c) = running (record s { tasks = s.tasks ++ entry c ∷ [] })
exec s (turn i e) = elim (get_elem? s.tasks i) [
  | none ↦ running s
  | some t ↦ settle s i (step e s.pool t)
]

unfoldable pub run : System → List Event → Status
run s [] = running s
run s (e ∷ es) = elim (exec s e) [ running s' ↦ run s' es | dead ↦ dead ]

unfoldable pub start : Config → System
unfolding new
start c = record { pool = new c; tasks = [] }
