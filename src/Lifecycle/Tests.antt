-- ===== src/Lifecycle/Tests.antt =====
-- The manager on small inputs.
use herd.Common.{ℕ, ◌+◌, ◌≤◌, ◌<◌, ◌≡◌, ◌⊎◌, ◌↔◌, refl, [], ◌∷◌, some, arith, lookup}
use herd.Common.Int.{pos}
use herd.Lifecycle.Defs.{SessionState, Manager, get_session, sweep}
use herd.Lifecycle.Sweep.{sweep-keeps_iff}

abbrev idle : SessionState
idle = record {
  created_at = 10;
  last_control_heartbeat = 10;
  last_data_activity = 20;
  active_conns = pos 0;
  idle_ttl = pos 30;
  absolute_ttl = pos 0;
  port_mappings = [];
}

abbrev sessions : Manager
sessions = (3, idle) ∷ (4, record idle { active_conns = pos 2 }) ∷ []

sweep-keeps_iff_example :
    (get_session 3 (sweep 60 sessions).0 ≡ some idle)
    ↔ (((◌≡◌ {A = ℕ} 0 0) ⊎ (60 ≤ 10 + 0)) × ((◌≡◌ {A = ℕ} 30 0) ⊎ (0 < 0) ⊎ (60 ≤ 20 + 30)))
unfolding lookup
sweep-keeps_iff_example =
    sweep-keeps_iff 60 3 0 30 0 sessions idle (omega arith) refl refl refl refl
