-- ===== src/Pool/Acquire.antt =====
-- `Pool.Acquire` and `GetSession` (pool.go), cut where the mutex is dropped or a channel is used.
use herd.Common.{
  ℕ, suc, ◌-◌, ◌++◌, ◌∷◌, [], Option, none, some, ltb, if◌then◌else◌, lookup, insert, delete,
}
use herd.Pool.State.{
  SessionId, Worker, Pool, Task, Env, Outcome, ran, blocked, seeking, waiting, queued, spawning,
  refunding, dropping, signalling, wiring, pinning, unpinning, acquired, refused, get, put,
  is_member,
}

-- The loop's first critical section: the registry, then `inflight`, then a new entry of it.
unfoldable pub seek : Env → Pool → SessionId → Outcome
unfolding get
seek e p s = if e.fail then ran p refused else elim (get s p.registry) [
  | some w ↦ ran p (acquired s w)
  | none ↦ elim (lookup s p.inflight) [
    | some ch ↦ ran p (waiting s ch)
    | none ↦
        ran (record p { inflight = insert s p.next_chan p.inflight; next_chan = suc p.next_chan })
          (queued s p.next_chan)
  ]
]

-- The select on the pending channel and the context.
unfoldable pub wait : Env → Pool → SessionId → ℕ → Outcome
unfolding is_member
wait e p s ch =
    if e.cancelled
    then ran p refused
    else if is_member ch p.closed
    then ran p (seeking s)
    else blocked

-- The select on the tickets and the context.
unfoldable pub take_ticket : Env → Pool → SessionId → ℕ → Outcome
take_ticket e p s ch =
    if e.cancelled
    then ran p (dropping s ch)
    else if ltb 0 p.tickets
    then ran (record p { tickets = p.tickets - 1 }) (spawning s ch)
    else blocked

unfoldable pub spawn : Env → Pool → SessionId → ℕ → Outcome
spawn e p s ch = ran p (if e.fail then refunding s ch else wiring s ch e.spawned)

unfoldable pub drop_flight : Pool → SessionId → ℕ → Outcome
drop_flight p s ch = ran (record p { inflight = delete s p.inflight }) (signalling s ch none)

abbrev pub result : SessionId → Option Worker → Task
result s none = refused
result s (some w) = acquired s w

-- `wireWorker`
unfoldable pub wire_worker : Pool → SessionId → ℕ → Worker → Outcome
wire_worker p s ch w = ran (record p { workers = p.workers ++ w ∷ [] }) (pinning s ch w)

-- The last critical section: pin the worker, or fail and leave `inflight` as it is.
unfoldable pub pin : Env → Pool → SessionId → ℕ → Worker → Outcome
unfolding put
pin e p s ch w =
    if e.fail
    then ran p (unpinning s ch w)
    else ran (record p { registry = put s w p.registry; inflight = delete s p.inflight })
        (signalling s ch (some w))

-- `GetSession`: `none` in the sum's right is the nil session; an error is the left.
unfoldable pub get_session : Env → Pool → SessionId → Option (Option Worker)
unfolding get
get_session e p s = if e.fail then none else some (get s p.registry)
