-- ===== src/Proxy/Tests.antt =====
-- Requests of session 4 through the data plane's proxy.
use herd.Common.{ℕ, ◌≡◌, refl, true, false, [], ◌∷◌, Option, none, some, lookup, arith}
use herd.Common.Int.{pos}
use herd.Pool.State.{Pool, Worker, new, default_config}
use herd.Lifecycle.Defs.{SessionState, Manager}
use herd.Proxy.Defs.{ReverseProxy, Request, serve_http}
use herd.Proxy.Requests.{serve_http-balanced}

abbrev never : ℕ → Pool → Pool × Option Worker
never s p = (p, none)

abbrev vm : Worker
vm = record { id = 4; process = 9 }

abbrev pool : Pool
pool = record (unfold new in new default_config) { registry = (4, vm) ∷ []; workers = vm ∷ [] }

abbrev lease : SessionState
lease = record {
  created_at = 10;
  last_control_heartbeat = 10;
  last_data_activity = 20;
  active_conns = pos 1;
  idle_ttl = pos 30;
  absolute_ttl = pos 0;
  port_mappings = [];
}

abbrev leases : Manager
leases = (4, lease) ∷ []

abbrev plane : ReverseProxy
plane = record { has_manager = true; lookup_only = true }

abbrev request : Request
request = record {
  session = 4;
  env = record { cancelled = false; fail = false; undeleted = false; spawned = vm };
  address_ok = true;
  upstream = some 201;
  ended_at = 50;
  deadline = false;
}

serve_http-balanced_example :
    (lookup 4 (serve_http never plane request pool leases).manager
      ≡ some (record lease { last_data_activity = 50 }))
    × ((serve_http never plane request pool leases).kills ≡ [])
unfolding lookup
serve_http-balanced_example =
    serve_http-balanced never plane request pool leases 4 1 lease refl (omega arith) refl refl refl

abbrev late : Request
late = record request { deadline = true }
