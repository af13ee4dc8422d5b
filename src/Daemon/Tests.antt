-- ===== src/Daemon/Tests.antt =====
-- Calls of the controller with a backend that answers at once.
use herd.Common.{◌≡◌, refl, true, false, [], ◌∷◌, none, some, lookup}
use herd.Common.Text.{codes, text_eq}
use herd.Common.Split.{has_prefix}
use herd.Pool.State.{Worker}
use herd.Daemon.Defs.{CreateRequest, CreateResponse}
use herd.Daemon.Sample.{vm, backend, fresh, asked, started}
use herd.Daemon.Sessions.{new_lease}
use herd.Daemon.Api.{
  ApiBackend, decoded, create, delete, created, answer, handle, handle_create_session, ExecEnv,
  handle_exec_session,
}
use herd.Daemon.Handlers.{
  is_client_error, handle-refused, handle-leases, AllClosed, handle_exec_session-AllClosed,
}
use herd.Vsock.Defs.{Peer}
use herd.Daemon.Runtime.{Patterns, Routes}

abbrev reply : CreateResponse
reply = record { session = 8; internal_ip = some 6; proxy_address = 80; port_mappings = [] }

abbrev api : ApiBackend
api = record {
  calls = backend true;
  get_session = λ s p. some vm;
  log_of = λ w. none;
  warmer = none;
  vsock_path = λ w. none;
  address = λ w. codes "unix:///run/herd/vsock.sock";
}

abbrev without_image : CreateRequest
without_image = record asked { tenant = record asked.tenant { image = 0 } }

handle-refused_example : (handle api 50 (create (decoded without_image)) fresh).0 ≡ fresh
unfolding handle handle_create_session
handle-refused_example = handle-refused api 50 (create (decoded without_image)) fresh refl

handle-leases_example :
    let made = handle api 50 (create (decoded asked)) started in
    let gone = handle api 50 (delete 8) started in
    (made.1 ≡ answer 200 (created reply)
      → (w : Worker) × (lookup 8 made.0.leases
          ≡ some (new_lease (backend true) 50 asked.tenant [])))
    × (is_client_error gone.1 ≡ false → lookup 8 gone.0.leases ≡ none)
handle-leases_example = handle-leases api 50 started asked reply 8

-- A machine that refuses the port.
abbrev refusing : Peer
refusing = record { pieces = some (codes "FAILURE\n" ∷ []); writable = true }

abbrev env : ExecEnv
env = record {
  can_hijack = true;
  hijacked = true;
  written = true;
  flushed = true;
  guest = λ path. refusing;
}

handle_exec_session-AllClosed_example :
    AllClosed (handle_exec_session api (codes "failed to dial vsock") env 8 started)
handle_exec_session-AllClosed_example =
    handle_exec_session-AllClosed api (codes "failed to dial vsock") env 8 started

abbrev patterns : Patterns
patterns = record { parses = λ p. has_prefix (codes "/") p; conflict = text_eq }
