-- ===== src/Lifecycle/Defs.antt =====
-- internal/lifecycle/manager.go, handlers.go and reaper.go. Times are nanoseconds of the monotonic
-- clock, durations are int64. Session ids are strings that are only compared. Each method returns
-- the new manager and the calls of `KillWorker` that it made.
use herd.Common.{
  ℕ, zero, suc, ◌+◌, ◌*◌, ◌&&◌, ◌++◌, Bool, true, false, List, [], ◌∷◌, Option, none, some,
  if◌then◌else◌, Map, lookup, insert, delete,
}
use herd.Common.Int.{ℤ, pos, negsuc, pos_part, neg_part, sub_ℕ, ltb_ℤ, is_positive, wrap64}
use herd.Tenant.{PortMapping, TenantConfig}

-- `time.Duration(n) * time.Second`
unfoldable pub seconds : ℤ → ℤ
seconds n = wrap64 (sub_ℕ (pos_part n * 1000000000) (neg_part n * 1000000000))

pub record SessionState : Type 0 where
  pub created_at : ℕ
  pub last_control_heartbeat : ℕ
  pub last_data_activity : ℕ
  pub active_conns : ℤ
  pub idle_ttl : ℤ
  pub absolute_ttl : ℤ
  pub port_mappings : List PortMapping

pub data Reason : Type 0 where
  absolute_ttl_expired idle_ttl_expired data_plane_deadlock : Reason
  requested : ℕ → Reason

-- A call `KillWorker(sessionID, reason)` of the reaper.
pub record Kill : Type 0 where
  pub session : ℕ
  pub reason : Reason

abbrev pub Manager : Type 0
Manager = Map SessionState

unfoldable pub register : ℕ → ℕ → TenantConfig → List PortMapping → Manager → Manager
register now s c mappings m = insert s state m
  where
    state : SessionState
    state = record {
      created_at = now;
      last_control_heartbeat = now;
      last_data_activity = now;
      active_conns = pos 0;
      idle_ttl = seconds c.idle_timeout_seconds;
      absolute_ttl = seconds c.ttl_seconds;
      port_mappings = mappings;
    }

unfoldable pub remove : ℕ → Manager → Manager
remove s m = delete s m

unfoldable pub unregister_and_kill : ℕ → Reason → Manager → Manager × List Kill
unregister_and_kill s r m = (delete s m, record { session = s; reason = r } ∷ [])

unfoldable pub get_session : ℕ → Manager → Option SessionState
get_session = lookup

unfoldable pub list_sessions : Manager → List SessionState
list_sessions [] = []
list_sessions ((s, state) ∷ m) = state ∷ list_sessions m

-- A write through the pointer that the registry holds for a session, if it holds one.
unfoldable pub modify : (SessionState → SessionState) → ℕ → Manager → Manager
modify f s m = elim (lookup s m) [ none ↦ m | some state ↦ insert s (f state) m ]

unfoldable pub update_heartbeat : ℕ → ℕ → Manager → Manager
update_heartbeat now = modify λ state. record state { last_control_heartbeat = now }

-- `n++` and `n--` on an int
abbrev pub up : ℤ → ℤ
up (pos n) = pos (n + 1)
up (negsuc zero) = pos 0
up (negsuc (suc n)) = negsuc n

abbrev pub down : ℤ → ℤ
down (pos zero) = negsuc 0
down (pos (suc n)) = pos n
down (negsuc n) = negsuc (n + 1)

unfoldable pub begin_request : ℕ → Manager → Manager
begin_request = modify λ state. record state { active_conns = up state.active_conns }

abbrev pub clamp : ℤ → ℤ
clamp n = if ltb_ℤ n (pos 0) then pos 0 else n

abbrev pub end_state : ℕ → SessionState → SessionState
end_state now state = record state {
  active_conns = clamp (down state.active_conns);
  last_data_activity = now;
}

-- `EndRequest`; `deadline` says that the proxy's error is context.DeadlineExceeded.
unfoldable pub end_request : ℕ → ℕ → Bool → Manager → Manager × List Kill
end_request now s deadline m = elim (lookup s m) [
  | none ↦ (m, [])
  | some state ↦
      let after = insert s (end_state now state) m in
      if deadline
      then (delete s after, record { session = s; reason = data_plane_deadlock } ∷ [])
      else (after, [])
]

abbrev pub is_zero : ℤ → Bool
is_zero n = if ltb_ℤ n (pos 0) then false else if ltb_ℤ (pos 0) n then false else true

-- The rules of `sweep` for one session: why it is killed, if it is.
unfoldable pub verdict : ℕ → SessionState → Option Reason
verdict now state =
    if is_positive state.absolute_ttl && ltb_ℤ state.absolute_ttl (sub_ℕ now state.created_at)
    then some absolute_ttl_expired
    else if is_positive state.idle_ttl
        && is_zero state.active_conns
        && ltb_ℤ state.idle_ttl (sub_ℕ now state.last_data_activity)
    then some idle_ttl_expired
    else none

-- The loop of `sweep` over the snapshot.
unfoldable pub sweep_loop : ℕ → Manager → Manager → Manager × List Kill
sweep_loop now [] m = (m, [])
sweep_loop now ((s, state) ∷ snapshot) m = elim (verdict now state) [
  | none ↦ sweep_loop now snapshot m
  | some r ↦
      let (m', kills) = unregister_and_kill s r m in
      let (m'', more) = sweep_loop now snapshot m' in (m'', kills ++ more)
]

unfoldable pub sweep : ℕ → Manager → Manager × List Kill
sweep now m = sweep_loop now m m
