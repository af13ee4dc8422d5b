-- ===== src/Daemon/Defs.antt =====
-- internal/daemon/controller.go, telemetry.go and runtime_policy.go. Session ids are numbers, 0 for
-- the empty string; the log is left out.
use herd.Common.{
  ℕ, ◌+◌, ◌%◌, ◌^◌, ◌==◌, Bool, List, [], Option, none, some, ◌⊎◌, inl, inr, if◌then◌else◌,
}
use herd.Pool.State.{Pool, Worker}
use herd.Tenant.{PortMapping, TenantConfig}
use herd.Lifecycle.Defs.{Manager, Reason, register, unregister_and_kill}

-- `lifecycleCounters`: unsigned 64-bit counters. The gauge of draining sessions is never changed by
-- the code below.
pub record Counters : Type 0 where
  pub acquire_requests : ℕ
  pub acquire_failures : ℕ
  pub sessions_started : ℕ
  pub sessions_killed : ℕ

abbrev pub bump : ℕ → ℕ
bump n = (n + 1) % 2 ^ 64

unfoldable pub record_acquire_request : Counters → Counters
record_acquire_request c = record c { acquire_requests = bump c.acquire_requests }

unfoldable pub record_acquire_failure : Counters → Counters
record_acquire_failure c = record c { acquire_failures = bump c.acquire_failures }

unfoldable pub record_session_started : Counters → Counters
record_session_started c = record c { sessions_started = bump c.sessions_started }

unfoldable pub record_session_killed : Counters → Counters
record_session_killed c = record c { sessions_killed = bump c.sessions_killed }

pub record Controller : Type 0 where
  pub pool : Pool
  pub leases : Manager
  pub counters : Counters
  pub proxy_address : ℕ

-- `SessionCreateRequest`: the id, the tenant's configuration and `Warm`.
pub record CreateRequest : Type 0 where
  pub session : ℕ
  pub tenant : TenantConfig
  pub warm : Bool

pub record CreateResponse : Type 0 where
  pub session : ℕ
  pub internal_ip : Option ℕ
  pub proxy_address : ℕ
  pub port_mappings : List PortMapping

pub data Failure : Type 0 where
  warm_failed acquire_failed kill_failed : Failure

-- What the controller uses of the pool and its workers: `Acquire`, `KillWorker` (true for an error),
-- whether `WarmImage` succeeds, a new id from uuid.NewString, and the optional methods
-- `PortMappings` and `GuestIP` of a worker.
pub record Backend : Type 0 where
  pub acquire : ℕ → TenantConfig → Pool → Pool × Option Worker
  pub kill_worker : ℕ → Pool → Pool × Bool
  pub warms : ℕ → Bool
  pub new_id : ℕ
  pub port_mappings : Worker → Option (List PortMapping)
  pub guest_ip : Worker → Option ℕ

module _ (b : Backend) where
  abbrev pub session_id : CreateRequest → ℕ
  session_id req = if req.session == 0 then b.new_id else req.session

  abbrev pub or_nil : Option (List PortMapping) → List PortMapping
  or_nil none = []
  or_nil (some l) = l

  -- `CreateSession` after the image is warm; `now` is the time of the registration.
  unfoldable pub start_session :
      ℕ → Controller → CreateRequest → Controller × (Failure ⊎ CreateResponse)
  start_session now c req =
      let s = session_id req in
      let (pool, worker) = b.acquire s req.tenant c.pool in
      elim worker [
        | none ↦ (
          record c { pool = pool; counters = record_acquire_failure c.counters },
          inl acquire_failed,
        )
        | some w ↦ (
          record c {
            pool = pool;
            leases = register now s req.tenant (or_nil (b.port_mappings w)) c.leases;
            counters = record_session_started c.counters;
          },
          inr (record {
            session = s;
            internal_ip = b.guest_ip w;
            proxy_address = c.proxy_address;
            port_mappings = elim (b.port_mappings w) [
              | none ↦ req.tenant.port_mappings
              | some l ↦ l
            ];
          }),
        )
      ]

  unfoldable pub create_session :
      ℕ → Controller → CreateRequest → Controller × (Failure ⊎ CreateResponse)
  create_session now c req =
      let c' = record c { counters = record_acquire_request c.counters } in
      let started = start_session now c' req in
      if req.warm
      then (if b.warms req.tenant.image then started else (c', inl warm_failed))
      else started

  -- `DeleteSession`; the list of kills that `UnregisterAndKill` makes is carried out on the pool.
  unfoldable pub delete_session : Controller → ℕ → Reason → Controller × Option Failure
  delete_session c s reason =
      let (leases, _) = unregister_and_kill s reason c.leases in
      let (pool, failed) = b.kill_worker s c.pool in
      if failed then (record c { pool = pool; leases = leases }, some kill_failed) else (
        record c { pool = pool; leases = leases; counters = record_session_killed c.counters },
        none,
      )

-- runtime_policy.go: `EnforceRuntimePolicy` on the platforms it names, with the warnings that it logs.
pub data Platform : Type 0 where
  linux darwin unsupported : Platform

unfoldable pub enforce_runtime_policy : Platform → Option ℕ
enforce_runtime_policy linux = some 0
enforce_runtime_policy darwin = some 3
enforce_runtime_policy unsupported = none
