-- ===== src/Cloud/Tests.antt =====
-- A stream that swaps the credentials and boots a machine, on a disk that is a map from files to texts.
use herd.Common.{
  ◌≡◌, ◌≢◌, ◌↔◌, refl, inl, inr, Bool, true, false, ◌&&◌, Bool-cases, List, [], ◌∷◌, Option, none,
  some, if◌then◌else◌, arith,
}
use herd.Common.Int.{pos}
use herd.Common.Text.{Text, codes, text_eq, text_eq_iff}
use herd.Common.Split.{split, trim_left, trim_right}
use herd.Common.Paths.{join, walk, enter}
use herd.Settings.Defs.{CloudConfig}
use herd.Network.Ports.Defs.{tcp, unset}
use herd.Lifecycle.Defs.{SessionState}
use herd.Daemon.Defs.{Controller}
use herd.Daemon.Sample.{backend, fresh}
use herd.Pool.Teardown.{stats}
use herd.Pool.State.{new}
use herd.Observer.Defs.{NodeStats}
use herd.Observer.Cpu.{IsProper}
use herd.Cloud.Client.{
  Disk, tls, node_key, connected, Reach, dial_with_fallback, key_file, id_file, start,
}
use herd.Cloud.Commands.{
  boot_vm, swap_credentials, Command, Event, received, closed, command_loop, commands, Starts,
  last_swap, swapped_by, with_swap, command_loop_lem,
}
use herd.Cloud.Restart.{Works, start-command_loop}
use herd.Cloud.Boot.{boot, Booted, boot-Booted}
use herd.Cloud.Heartbeat.{
  heartbeat, IsPercent, plain_infos, InMegabytes, node_or_zero, heartbeat_bounds,
}

unfoldable path_eq : List Text → List Text → Bool
path_eq [] [] = true
path_eq [] (q ∷ qs) = false
path_eq (p ∷ ps) [] = false
path_eq (p ∷ ps) (q ∷ qs) = text_eq p q && path_eq ps qs

path_eq_iff : (x y : List Text) → (path_eq x y ≡ true) ↔ (x ≡ y)
unfolding path_eq
path_eq_iff [] [] = (λ h. refl, λ h. refl)
path_eq_iff [] (q ∷ qs) = (λ h. cc, λ h. cc)
path_eq_iff (p ∷ ps) [] = (λ h. cc, λ h. cc)
path_eq_iff (p ∷ ps) (q ∷ qs) = (
  λ h. ground (arith, text_eq_iff p q, path_eq_iff ps qs),
  λ h. ground (arith, text_eq_iff p q, path_eq_iff ps qs),
)

abbrev Files : Type 0
Files = List Text → Option Text

unfoldable put : List Text → Text → Files → Files
put f t d g = if path_eq f g then some t else d g

put_same : (f : List Text) (t : Text) (d : Files) → put f t d f ≡ some t
unfolding put
put_same f t d = rw (put, (path_eq_iff f f).1 refl) refl

put_other : (f g : List Text) (t : Text) (d : Files) → f ≢ g → put f t d g ≡ d g
unfolding put
put_other f g t d n = elim (Bool-cases (path_eq f g)) [
  | inl e ↦ absurd (n ((path_eq_iff f g).0 e))
  | inr e ↦ rw (put, e) refl
]

abbrev disk : Disk Files
disk = record {
  read_file = λ f d. d f;
  mkdir_all = λ f d. (d, true);
  remove = λ f d. d;
  write_file = λ f t d. (put f t d, true);
  reads = λ f t d h. put_same f t d;
  keeps = λ f g t d n. put_other f g t d n;
}

disk-Works : Works disk
disk-Works = record { makes = λ f d. refl; writes = λ f t d. refl }

abbrev cfg : CloudConfig
cfg = record {
  enabled = true;
  endpoint = codes "cloud.example:443";
  machine_token = codes "once";
  node_key = [];
  node_key_path = codes "/etc/herd/node.key";
  node_id = [];
  interface = [];
}

abbrev command : Command
command = record {
  command_id = 4;
  action = swap_credentials;
  requested_session_id = 0;
  requested_ports = [];
  image_ref = 0;
  vcpus = codes "2";
  memory_mb = [];
  node_id = codes "node-1";
  node_key = codes "secret";
}

abbrev boots : Command
boots = record command { action = boot_vm }

abbrev events : List Event
events = received boots ∷ received command ∷ closed ∷ received boots ∷ []

abbrev no_files : Files
no_files f = none

abbrev reach : Reach
reach = record {
  split_host_port = λ t. some (codes "cloud.example", codes "443");
  dials = λ endpoint t. true;
  opens = λ a. true;
}

command_loop_lem_example :
    Starts (commands events) (command_loop disk events cfg no_files).1
    × ((command_loop disk events cfg no_files).0.0 ≡ with_swap (last_swap (commands events)) cfg)
command_loop_lem_example = command_loop_lem disk events cfg no_files

files_differ : id_file cfg ≢ key_file cfg
unfolding join walk enter split text_eq
files_differ h = ground arith

start-command_loop_example :
    (start disk reach (command_loop disk events cfg no_files).0.1 cfg).1
    ≡ connected tls (node_key (codes "node-1") (codes "secret"))
unfolding last_swap commands swapped_by trim_right trim_left dial_with_fallback
start-command_loop_example =
    start-command_loop disk disk-Works events cfg cfg no_files (codes "node-1") (codes "secret")
      reach tls files_differ refl refl refl refl refl refl

boot-Booted_example :
    ((boot (backend true) 50 boots fresh).1.command_id ≡ 4)
    × Booted (backend true) 50 boots fresh (boot (backend true) 50 boots fresh)
boot-Booted_example = boot-Booted (backend true) 50 boots fresh

abbrev node : Option NodeStats
node = some (record {
  total_memory_bytes = pos 2097152;
  available_memory_bytes = pos 1048575;
  cpu_idle = record { numerator = pos 1; denominator = pos 4 };
  cpu_count = 2;
})

node-IsProper : IsProper (node_or_zero node).cpu_idle
node-IsProper = record { some_time = refl; nonneg = omega arith; le = omega arith }

abbrev lease : SessionState
lease = record {
  created_at = 40;
  last_control_heartbeat = 40;
  last_data_activity = 45;
  active_conns = pos 0;
  idle_ttl = pos 0;
  absolute_ttl = pos 0;
  port_mappings =
      record { host_interface = unset; host_port = 10001; guest_port = 80; protocol = tcp } ∷ [];
}

abbrev leased : Controller
leased = record fresh { leases = (8, lease) ∷ [] }

heartbeat_bounds_example :
    let h = heartbeat 50 (codes "203.0.113.7") node leased in
    IsPercent h.cpu_usage_percent
    × (h.active_sessions ≡ plain_infos leased.leases)
    × InMegabytes (pos 1048575) h.available_memory_mb
    × InMegabytes (pos 2097152) h.total_memory_mb
    × (h.active_vm_count ≡ pos ((stats leased.pool).active_sessions))
    × (h.total_vcpu ≡ pos 2)
unfolding stats new
heartbeat_bounds_example =
    heartbeat_bounds 50 (codes "203.0.113.7") node leased node-IsProper
      (((omega arith, omega arith), tt), tt) (omega arith) (omega arith)
