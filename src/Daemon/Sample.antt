-- ===== src/Daemon/Sample.antt =====
-- A controller with a backend that answers at once.
use herd.Common.{Bool, true, [], none, some, if◌then◌else◌}
use herd.Common.Int.{pos}
use herd.Pool.State.{Worker, new, default_config}
use herd.Daemon.Defs.{Controller, CreateRequest, Backend, create_session}

abbrev pub vm : Worker
vm = record { id = 8; process = 2 }

-- It acquires if `up`, and every kill fails.
abbrev pub backend : Bool → Backend
backend up = record {
  acquire = λ s t p. (p, if up then some vm else none);
  kill_worker = λ s p. (p, true);
  warms = λ image. true;
  new_id = 8;
  port_mappings = λ w. none;
  guest_ip = λ w. some 6;
}

abbrev pub fresh : Controller
fresh = record {
  pool = new default_config;
  leases = [];
  counters = record {
    acquire_requests = 2;
    acquire_failures = 0;
    sessions_started = 1;
    sessions_killed = 0;
  };
  proxy_address = 80;
}

abbrev pub asked : CreateRequest
asked = record {
  session = 0;
  tenant = record {
    image = 1;
    command = [];
    env = [];
    idle_timeout_seconds = pos 30;
    ttl_seconds = pos 0;
    health_interval = 0;
    vcpus = pos 1;
    memory_mb = pos 128;
    port_mappings = [];
  };
  warm = true;
}

abbrev pub started : Controller
started = (create_session (backend true) 50 fresh asked).0
