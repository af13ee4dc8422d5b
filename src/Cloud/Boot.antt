-- ===== src/Cloud/Boot.antt =====
-- internal/cloud/client.go: the routine that boots the machine of a command, and the response that it
-- sends. Of an error only that there is one is kept; 1 stands for the image alpine:latest.
use herd.Common.{
  ℕ, ◌≡◌, ◌∙◌, refl, inl, inr, ◌⊎◌, Bool, true, false, List, [], ◌∷◌, map, none, some,
  if◌then◌else◌, ◌==◌, lookup, if_same,
}
use herd.Common.Int.{ℤ, pos}
use herd.Common.Text.{Text}
use herd.Common.Fields.{parse_int}
use herd.Pool.State.{Worker}
use herd.Network.Ports.Defs.{tcp, unset}
use herd.Tenant.{PortMapping}
use herd.Common.Int.{wrap64}
use herd.Lifecycle.Defs.{SessionState, seconds, verdict}
use herd.Daemon.Defs.{
  Controller, CreateRequest, CreateResponse, Failure, Backend, create_session, or_nil,
}
use herd.Daemon.Sessions.{new_lease, create_session-leases, create_session_failed}
use herd.Cloud.Commands.{Command}

abbrev pub alpine_latest : ℕ
alpine_latest = 1

abbrev pub requested_mapping : ℕ → PortMapping
requested_mapping port = record {
  host_interface = unset;
  host_port = 0;
  guest_port = port;
  protocol = tcp;
}

unfoldable pub requested_mappings : List ℕ → List PortMapping
requested_mappings [] = requested_mapping 80 ∷ []
requested_mappings (port ∷ ports) = map requested_mapping (port ∷ ports)

-- `strconv.Atoi` with its error ignored.
abbrev pub atoi : Text → ℤ
atoi t = (parse_int t).0

unfoldable pub boot_request : Command → CreateRequest
boot_request cmd = record {
  session = cmd.requested_session_id;
  tenant = record {
    image = if cmd.image_ref == 0 then alpine_latest else cmd.image_ref;
    command = [];
    env = [];
    idle_timeout_seconds = pos 0;
    ttl_seconds = pos 0;
    health_interval = 0;
    vcpus = atoi cmd.vcpus;
    memory_mb = atoi cmd.memory_mb;
    port_mappings = requested_mappings cmd.requested_ports;
  };
  warm = false;
}

pub record CommandResponse : Type 0 where
  pub command_id : ℕ
  pub session : ℕ
  pub is_error : Bool

abbrev pub respond : Command → Failure ⊎ CreateResponse → CommandResponse
respond cmd (inl x) = record { command_id = cmd.command_id; session = 0; is_error = true }
respond cmd (inr resp) = record {
  command_id = cmd.command_id;
  session = resp.session;
  is_error = false;
}

respond_id :
    (cmd : Command) (answer : Failure ⊎ CreateResponse)
    → (respond cmd answer).command_id ≡ cmd.command_id
respond_id cmd (inl x) = refl
respond_id cmd (inr resp) = refl

module _ (b : Backend) where
  unfoldable pub boot : ℕ → Command → Controller → Controller × CommandResponse
  boot now cmd c =
      let (c', answer) = create_session b now c (boot_request cmd) in (c', respond cmd answer)

  -- No rule of the reaper ever applies to a lease with these limits, whatever its other fields become.
  abbrev pub Stays : SessionState → Type 0
  Stays lease =
      (t : ℕ) (x : SessionState)
      → x.absolute_ttl ≡ lease.absolute_ttl
      → x.idle_ttl ≡ lease.idle_ttl
      → verdict t x ≡ none

  -- The lease of a session that was booted on this worker.
  abbrev pub booted_lease : ℕ → Command → Worker → SessionState
  booted_lease now cmd w = new_lease b now (boot_request cmd).tenant (or_nil b (b.port_mappings w))

  -- What is there after a boot that was answered so.
  abbrev pub Booted : ℕ → Command → Controller → Controller × CommandResponse → Type 0
  Booted now cmd c (d, resp) =
      if resp.is_error
      then d.leases ≡ c.leases
      else ((resp.session
            ≡ (if cmd.requested_session_id == 0 then b.new_id else cmd.requested_session_id))
          × ((w : Worker) × (lookup resp.session d.leases ≡ some (booted_lease now cmd w))
              × Stays (booted_lease now cmd w)))

  booted_lease-Stays : (now : ℕ) (cmd : Command) (w : Worker) → Stays (booted_lease now cmd w)
  unfolding verdict boot_request seconds wrap64
  booted_lease-Stays now cmd w t x e1 e2 = rw (verdict, e1, e2) refl

  booted_lem :
      (now : ℕ) (cmd : Command) (c d : Controller) (answer : Failure ⊎ CreateResponse)
      → create_session b now c (boot_request cmd) ≡ (d, answer)
      → Booted now cmd c (d, respond cmd answer)
  booted_lem now cmd c d (inl x) h = (create_session_failed b now c d (boot_request cmd) x h).0
  booted_lem now cmd c d (inr resp) h =
      let (w, e1, e2, _) = create_session-leases b now resp.session c d (boot_request cmd) resp h in
      (unfold boot_request in e1, (w, e2 ∙ if_same resp.session _ _, booted_lease-Stays now cmd w))

  -- The response to a boot command carries the id of the command. Without an error it names the session
  -- that was asked for, or a new one if none was, and that session has a lease that the reaper
  -- never ends, at any time and whatever its activity, since the command sets no timeout; with an error
  -- the leases are as they were.
  pub boot-Booted :
      (now : ℕ) (cmd : Command) (c : Controller)
      → let r = boot now cmd c in (r.1.command_id ≡ cmd.command_id) × Booted now cmd c r
  unfolding boot
  boot-Booted now cmd c =
      let (d, answer) = create_session b now c (boot_request cmd) in
      (respond_id cmd answer, booted_lem now cmd c d answer refl)
