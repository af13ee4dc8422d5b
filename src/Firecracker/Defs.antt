-- ===== src/Firecracker/Defs.antt =====
-- firecracker_factory.go: the state that `Spawn` and `Close` change, the undo stack and `Close`. The
-- host's commands are the machine's; the log and the time limits are left out.
use herd.Common.{ℕ, ◌==◌, Bool, List, [], ◌∷◌, ◌++◌, Option, if◌then◌else◌}
use herd.Network.Ports.Defs.{PortManager, Protocol, Interface, Listen}
use herd.Network.Ports.Defs as Ports
use herd.Network.Ipam.Defs.{Address, Ipam}
use herd.Network.Ipam.Defs as Addresses
use herd.Uid.Defs.{return_uid}
use herd.Uid.Defs as Uids
use herd.Tenant.{PortMapping}
use herd.Host.Machine.{Command, teardown, remove_all, kill, close_connection, cancel, Machine}
use herd.Network.Nat.Defs.{Names, delete_tap, remove_port_mapping}

-- What the factory shares with every machine: its three pools, and the world outside.
pub record Host (W : Type 0) : Type 0 where
  pub uids : Uids.Pool
  pub ipam : Ipam
  pub ports : PortManager
  pub world : W

pub record ImageConfig : Type 0 where
  pub cmd : List ℕ
  pub entrypoint : List ℕ

-- The factory, with a port manager, and what it relies on: `Storage.WarmImage` and
-- `ExtractImageConfig`, the name of the TAP of a machine ("tap-" and the last 8 characters of its
-- id), an address as a string, and the rounds given to `IPAM.Acquire`.
pub record Factory (W : Type 0) : Type 0 where
  pub machine : Machine W
  pub names : Names
  pub listen : Listen
  pub warm_image : ℕ → Bool
  pub image_config : ℕ → Option ImageConfig
  pub tap_name : ℕ → ℕ
  pub text : Address → ℕ
  pub rounds : ℕ

-- The closures that `Spawn` pushes on its undo stack.
pub data Undo : Type 0 where
  return_leased release_port : ℕ → Undo
  teardown_storage remove_jail drop_tap kill_process close_conn cancel_context : Undo
  release_ip : Address → Undo
  remove_mapping : Interface → ℕ → Address → ℕ → Protocol → Undo

pub record FirecrackerWorker : Type 0 where
  pub id : ℕ
  pub guest_ip : Address
  pub leased_uid : ℕ
  pub port_mappings : List PortMapping

module _ {W : Type 0} (f : Factory W) where
  abbrev pub run_on : Command → Host W → Host W
  run_on c h = record h { world = (f.machine.run c h.world).0 }

  abbrev pub drop_tap_of : ℕ → Host W → Host W
  drop_tap_of vm h = record h { world = (delete_tap f.machine (f.tap_name vm) h.world).0 }

  abbrev pub return_to : ℕ → Host W → Host W
  return_to uid h = record h { uids = (return_uid h.uids uid).0 }

  abbrev pub release_from : ℕ → Host W → Host W
  release_from port h = record h { ports = Ports.release h.ports port }

  abbrev pub free_ip : Address → Host W → Host W
  free_ip ip h = record h { ipam = Addresses.release h.ipam ip }

  abbrev pub unmap : Interface → ℕ → Address → ℕ → Protocol → Host W → Host W
  unmap iface port ip guest_port protocol h = record h {
    world =
        remove_port_mapping f.machine f.names iface port (f.text ip) guest_port protocol h.world;
  }

  -- One entry of the undo stack of machine `vm`.
  unfoldable pub perform : ℕ → Undo → Host W → Host W
  perform vm (return_leased uid) h = return_to uid h
  perform vm (release_port port) h = release_from port h
  perform vm teardown_storage h = run_on (teardown vm) h
  perform vm remove_jail h = run_on (remove_all vm) h
  perform vm drop_tap h = drop_tap_of vm h
  perform vm kill_process h = run_on (kill vm) h
  perform vm close_conn h = run_on (close_connection vm) h
  perform vm cancel_context h = run_on (cancel vm) h
  perform vm (release_ip ip) h = free_ip ip h
  perform vm (remove_mapping iface port ip guest_port protocol) h =
      unmap iface port ip guest_port protocol h

  -- The deferred loop of `Spawn`, from the last entry that was pushed.
  unfoldable pub unwind : ℕ → List Undo → Host W → Host W
  unwind vm [] h = h
  unwind vm (u ∷ us) h = unwind vm us (perform vm u h)

  -- The loop of `Close` over the port mappings.
  unfoldable pub close_mappings : Address → List PortMapping → Host W → Host W
  close_mappings ip [] h = h
  close_mappings ip (pm ∷ pms) h = close_mappings ip pms (
      release_from pm.host_port
        (unmap pm.host_interface pm.host_port ip pm.guest_port pm.protocol h))

  -- `Close` of a worker that `Spawn` made.
  unfoldable pub close : FirecrackerWorker → Host W → Host W
  close w h =
      let h1 = run_on (remove_all w.id) (run_on (kill w.id) (run_on (cancel w.id) h)) in
      let h2 = run_on (teardown w.id) (free_ip w.guest_ip (drop_tap_of w.id h1)) in
      close_mappings w.guest_ip w.port_mappings
        (if w.leased_uid == 0 then h2 else return_to w.leased_uid h2)

-- The command of the machine: the image's entrypoint, then the request's command or the image's.
unfoldable pub final_command : ImageConfig → List ℕ → List ℕ
final_command image [] = image.entrypoint ++ image.cmd
final_command image (word ∷ words) = image.entrypoint ++ word ∷ words
