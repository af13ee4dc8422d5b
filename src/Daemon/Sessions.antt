-- ===== src/Daemon/Sessions.antt =====
-- What the controller's calls leave behind.
use herd.Common.{
  ℕ, ◌≡◌, List, none, some, Option-cases, inl, inr, ◌==◌, lookup, lookup-insert, lookup-delete,
  if◌then◌else◌, arith,
}
use herd.Common.Int.{pos}
use herd.Pool.State.{Worker}
use herd.Tenant.{PortMapping, TenantConfig}
use herd.Lifecycle.Defs.{SessionState, Reason, seconds, register, unregister_and_kill}
use herd.Daemon.Defs.{
  Controller, CreateRequest, CreateResponse, Failure, acquire_failed, Backend, bump, session_id,
  or_nil, start_session, create_session, delete_session, record_acquire_request,
  record_acquire_failure, record_session_started, record_session_killed,
}

module _ (b : Backend) where
  -- The lease of a session at its registration.
  abbrev pub new_lease : ℕ → TenantConfig → List PortMapping → SessionState
  new_lease now t mappings = record {
    created_at = now;
    last_control_heartbeat = now;
    last_data_activity = now;
    active_conns = pos 0;
    idle_ttl = seconds t.idle_timeout_seconds;
    absolute_ttl = seconds t.ttl_seconds;
    port_mappings = mappings;
  }

  -- A `CreateSession` that succeeds answers the session that it was asked for, or a new one, gives
  -- that session a lease that starts now with no connection and leaves other leases alone, and counts
  -- one request and one start.
  pub create_session-leases :
      (now k : ℕ) (c d : Controller) (req : CreateRequest) (resp : CreateResponse)
      → create_session b now c req ≡ (d, inr resp)
      → (w : Worker) × (resp.session ≡ session_id b req)
        × (lookup k d.leases ≡ (
            if resp.session == k
            then some (new_lease now req.tenant (or_nil b (b.port_mappings w)))
            else lookup k c.leases))
        × (d.counters ≡ record (c.counters) {
          acquire_requests = bump c.counters.acquire_requests;
          sessions_started = bump c.counters.sessions_started;
        })
  unfolding create_session start_session register record_acquire_request record_session_started
  create_session-leases now k c d req resp h =
      elim (Option-cases ((b.acquire (session_id b req) req.tenant c.pool).1)) [
        | inl e ↦ absurd (ground arith)
        | inr (w, e) ↦ (
          w,
          ground arith,
          ground (
            arith,
            lookup-insert (session_id b req) k
                (new_lease now req.tenant (or_nil b (b.port_mappings w))) c.leases,
          ),
          ground arith,
        )
      ]

  -- A `CreateSession` that fails leaves every lease as it was and counts one request; it counts a
  -- failure if the acquire failed, and none if the image could not be warmed.
  pub create_session_failed :
      (now : ℕ) (c d : Controller) (req : CreateRequest) (x : Failure)
      → create_session b now c req ≡ (d, inl x)
      → (d.leases ≡ c.leases)
        × (d.counters ≡ record (c.counters) {
          acquire_requests = bump c.counters.acquire_requests;
          acquire_failures = elim x [
            | acquire_failed ↦ bump c.counters.acquire_failures
            | _ ↦ c.counters.acquire_failures
          ];
        })
  unfolding create_session start_session record_acquire_request record_acquire_failure
  create_session_failed now c d req x h = ground arith

  -- `DeleteSession` ends the lease of its session and no other, whether or not killing the worker
  -- fails, and counts a kill exactly if it does not fail.
  pub delete_session-leases :
      (k s : ℕ) (c : Controller) (reason : Reason)
      → let r = delete_session b c s reason in
        (lookup k r.0.leases ≡ (if s == k then none else lookup k c.leases))
        × (r.0.pool ≡ (b.kill_worker s c.pool).0)
        × (r.0.counters.sessions_killed ≡ elim r.1 [
          | none ↦ bump c.counters.sessions_killed
          | some _ ↦ c.counters.sessions_killed
        ])
  unfolding delete_session unregister_and_kill record_session_killed
  delete_session-leases k s c reason = ground (arith, lookup-delete s k c.leases)
