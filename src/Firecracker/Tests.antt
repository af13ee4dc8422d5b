-- ===== src/Firecracker/Tests.antt =====
-- A machine that never answers on its socket, and one whose first port mapping fails;
-- a worker that is closed.
use herd.Common.{◌≤◌, ◌≡◌, refl, true, false, [], ◌∷◌, none, some, Option, arith, lookup}
use herd.Common.Int.{pos}
use herd.Network.Ipam.Defs.{acquire, search, is_used}
use herd.Tenant.{TenantConfig}
use herd.Host.Machine.{jail, after, same}
use herd.Host.Sample.{
  World, Fault, machine, machine-Removes, empty, no_fault, no_connection, no_forward,
}
use herd.Firecracker.Defs.{Host, Factory, FirecrackerWorker, final_command, close}
use herd.Firecracker.Spawn.{
  finish, spawn, run_stages, lease_uid, prepare_image, do_undoable, do_command, make_jail,
  acquire_ip, make_tap, register_agent, map_port,
}
use herd.Uid.Defs.{checkout}
use herd.Common.Text.{text_eq}
use herd.Network.Nat.Defs.{create_tap, delete_tap, add_port_mapping}
use herd.Network.Ports.Defs.{tcp, unset, allocate, find_free, is_host_port_free}
use herd.Uid.Leases.{IsSound}
use herd.Firecracker.Leases.{house, Outcome, spawn-IsSound}
use herd.Firecracker.Balance.{close-spawn}
use herd.Firecracker.Pools.{spawn_failed-pools}

abbrev factory : Fault → Factory World
factory fault = record {
  machine = machine fault;
  names = record { is_ip = λ n. true; localhost = 1 };
  listen = λ udp iface port. true;
  warm_image = λ image. true;
  image_config = λ image. some (record { cmd = 7 ∷ []; entrypoint = [] });
  tap_name = λ vm. vm;
  text = λ ip. 6;
  rounds = 9;
}

abbrev host : Host World
host = record {
  uids = record { ch = 70000 ∷ []; cap = 1; first = 70000; last = 70001 };
  ipam = record {
    subnet = record { ip = 10 ∷ 200 ∷ 0 ∷ 0 ∷ []; mask = 255 ∷ 255 ∷ 0 ∷ 0 ∷ [] };
    used = [];
    next_ip = 10 ∷ 200 ∷ 0 ∷ 2 ∷ [];
  };
  ports = record { in_use = []; ephemeral_start = 10000; ephemeral_end = 10009 };
  world = empty;
}

abbrev tenant : TenantConfig
tenant = record {
  image = 1;
  command = [];
  env = [];
  idle_timeout_seconds = pos 30;
  ttl_seconds = pos 0;
  health_interval = 0;
  vcpus = pos 1;
  memory_mb = pos 128;
  port_mappings = [];
}

abbrev web : TenantConfig
web = record tenant {
  port_mappings =
      record { host_interface = unset; host_port = 0; guest_port = 80; protocol = tcp } ∷ [];
}

spawn_failed-pools_example :
    let h = (spawn (factory no_forward) 3 web host).0 in
    (lookup 10000 h.ports.in_use ≡ none) × (is_used (10 ∷ 200 ∷ 0 ∷ 2 ∷ []) h.ipam.used ≡ false)
unfolding spawn run_stages lease_uid checkout prepare_image final_command do_undoable do_command
    make_jail acquire_ip acquire search is_used make_tap create_tap delete_tap register_agent
    map_port allocate find_free is_host_port_free add_port_mapping after same text_eq lookup
spawn_failed-pools_example =
    spawn_failed-pools (factory no_forward) 3 10000 (10 ∷ 200 ∷ 0 ∷ 2 ∷ []) web host (λ e. cc) refl

-- A worker with one port mapping, and a host on which it runs.
abbrev worker : FirecrackerWorker
worker = record {
  id = 3;
  guest_ip = 10 ∷ 200 ∷ 0 ∷ 2 ∷ [];
  leased_uid = 70000;
  port_mappings =
      record { host_interface = unset; host_port = 10000; guest_port = 80; protocol = tcp } ∷ [];
}

abbrev busy : Host World
busy = record {
  uids = record { ch = []; cap = 1; first = 70000; last = 70001 };
  ipam = record host.ipam { used = (10 ∷ 200 ∷ 0 ∷ 2 ∷ []) ∷ [] };
  ports = record host.ports { in_use = (10000, 3) ∷ [] };
  world = λ q. 1;
}

house-IsSound : IsSound (house (factory no_fault) 3 [] host [])
house-IsSound = record { once = λ u. ground arith; sized = refl }

spawn-IsSound_example :
    Outcome (factory no_connection) 3 [] (spawn (factory no_connection) 3 tenant host)
spawn-IsSound_example = spawn-IsSound (factory no_connection) 3 [] tenant host house-IsSound

-- `Spawn` of `web` on a host where nothing fails.
abbrev spawned : Host World × Option FirecrackerWorker
spawned = spawn (factory no_fault) 3 web host

close-spawn_example : (close (factory no_fault) worker spawned.0).world (jail 3) ≤ 0
unfolding spawn finish run_stages lease_uid checkout prepare_image final_command do_undoable
    do_command make_jail acquire_ip acquire search is_used make_tap create_tap delete_tap
    register_agent map_port allocate find_free is_host_port_free add_port_mapping after same text_eq
    lookup
close-spawn_example =
    close-spawn (factory no_fault) 3 (jail 3) web (machine-Removes no_fault) (λ e. cc) host
      spawned.0 worker refl
