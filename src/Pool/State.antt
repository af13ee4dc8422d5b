-- ===== src/Pool/State.antt =====
-- The state of `Pool[C]` (pool.go), its options (options.go), the session registry (registry.go)
-- and the points at which a goroutine inside a pool method may be interrupted.
use herd.Common.{
  ℕ, ◌+◌, Bool, true, false, List, [], ◌∷◌, Option, none, some, ◌==◌, ltb, if◌then◌else◌, Map,
  lookup, insert, delete, length,
}

-- A session id is a string that the pool only compares; it stands as a number.
abbrev pub SessionId : Type 0
SessionId = ℕ

-- The value behind the `Worker[C]` interface: what `ID()` returns, and the process it talks to.
pub record Worker : Type 0 where
  pub id : ℕ
  pub process : ℕ

-- options.go: `config`. Of the crash handler only its presence matters here.
pub record Config : Type 0 where
  pub max : ℕ
  pub crash_handler : Bool

abbrev pub default_config : Config
default_config = record { max = 10; crash_handler = false }

-- `none` stands for the panic on max < 1.
unfoldable pub with_max_workers : ℕ → Option (Config → Config)
with_max_workers max = if ltb max 1 then none else some (λ c. record c { max = max })

unfoldable pub with_crash_handler : Config → Config
with_crash_handler c = record c { crash_handler = true }

-- registry.go: `localRegistry`.
abbrev pub Registry : Type 0
Registry = Map Worker

unfoldable pub get : SessionId → Registry → Option Worker
get = lookup

unfoldable pub put : SessionId → Worker → Registry → Registry
put = insert

unfoldable pub remove : SessionId → Registry → Registry
remove = delete

unfoldable pub size : Registry → ℕ
size = length

-- `List`: a new map with the entries of this one.
unfoldable pub list_workers : Registry → Registry
list_workers [] = []
list_workers ((s, w) ∷ r) = insert s w (list_workers r)

-- pool.go: `Pool[C]`. Channels of `inflight` are numbered in the order of their creation;
-- `closed` lists those that were closed. `tickets` is how many tokens the channel holds.
pub record Pool : Type 0 where
  pub config : Config
  pub registry : Registry
  pub inflight : Map ℕ
  pub workers : List Worker
  pub tickets : ℕ
  pub next_chan : ℕ
  pub closed : List ℕ
  pub done : Bool

-- `New`: the ticket channel is filled to its capacity.
unfoldable pub new : Config → Pool
new c = record {
  config = c;
  registry = [];
  inflight = [];
  workers = [];
  tickets = c.max;
  next_chan = 0;
  closed = [];
  done = false;
}

-- A goroutine inside `Acquire`, `KillWorker`, `release` or `onCrash`, named for what it does next.
pub data Task : Type 0 where
  seeking : SessionId → Task
  waiting : SessionId → ℕ → Task
  queued : SessionId → ℕ → Task
  spawning : SessionId → ℕ → Task
  refunding : SessionId → ℕ → Task
  dropping : SessionId → ℕ → Task
  signalling : SessionId → ℕ → Option Worker → Task
  wiring : SessionId → ℕ → Worker → Task
  pinning : SessionId → ℕ → Worker → Task
  unpinning : SessionId → ℕ → Worker → Task
  discarding : SessionId → Worker → Task
  evicting : SessionId → Worker → Task
  repaying : SessionId → Task
  abandoned : SessionId → Task
  acquired : SessionId → Worker → Task
  refused : Task
  killing : SessionId → Task
  kill_closing : Worker → Task
  kill_failed : Worker → Task
  releasing : SessionId → Worker → Task
  release_closing : Worker → Task
  crashing : SessionId → Task
  removing : Worker → Option SessionId → Task
  returning : Option SessionId → Task
  reporting : SessionId → Task
  reported : SessionId → Task
  finished : Task

-- What the environment decides about one step: whether the context's branch of a `select` is
-- taken, whether the call made in the step returns an error, whether the registry's `Delete` in
-- `KillWorker` does, and the worker that `Spawn` returns.
pub record Env : Type 0 where
  pub cancelled : Bool
  pub fail : Bool
  pub undeleted : Bool
  pub spawned : Worker

-- A step runs, blocks on a channel, or panics.
pub data Outcome : Type 0 where
  ran : Pool → Task → Outcome
  blocked : Outcome
  panicked : Outcome

unfoldable pub is_member : ℕ → List ℕ → Bool
is_member c [] = false
is_member c (d ∷ ds) = if d == c then true else is_member c ds

-- `close(ch)`: closing a closed channel panics.
unfoldable pub close_chan : ℕ → Pool → Task → Outcome
close_chan ch p t =
    if is_member ch p.closed then panicked else ran (record p { closed = ch ∷ p.closed }) t

-- `p.tickets <- struct{}{}` on a channel of capacity max.
unfoldable pub send_ticket : Pool → Task → Outcome
send_ticket p t =
    if ltb p.tickets p.config.max then ran (record p { tickets = p.tickets + 1 }) t else blocked

unfoldable pub remove_first : ℕ → List Worker → List Worker
remove_first i [] = []
remove_first i (w ∷ ws) = if w.id == i then ws else w ∷ remove_first i ws

-- `removeWorker`
unfoldable pub remove_worker : Worker → Pool → Pool
unfolding remove_first
remove_worker w p = record p { workers = remove_first w.id p.workers }
