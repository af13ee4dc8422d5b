-- ===== src/Firecracker/Spawn.antt =====
-- firecracker_factory.go: `Spawn` as its stages. A stage that fails returns what it has done so far,
-- and the undo stack that is unwound then.
use herd.Common.{
  ℕ, not, Bool, true, false, List, [], ◌∷◌, ◌++◌, Option, none, some, inl, inr, if◌then◌else◌,
}
use herd.Network.Ports.Defs.{allocate}
use herd.Network.Ports.Defs as Ports
use herd.Network.Ipam.Defs as Addresses
use herd.Uid.Defs.{checkout}
use herd.Tenant.{PortMapping, TenantConfig}
use herd.Host.Machine.{
  Command, make_snapshot, inject_agent, mkdir_parent, mkdir_root, chown_root, mkdir_run, chown_run,
  mkdir_dev, chown_dev, link_kernel, bind_device, write_config, start, connect, Answer, done,
  exists, failed,
}
use herd.Network.Nat.Defs.{is_done, delete_tap, create_tap, add_port_mapping}
use herd.Firecracker.Defs.{
  Host, Factory, Undo, return_leased, release_port, teardown_storage, remove_jail, drop_tap,
  kill_process, close_conn, cancel_context, release_ip, remove_mapping, FirecrackerWorker, unwind,
  final_command,
}

-- `os.IsExist` is no error for these directories.
abbrev pub is_fine : Command → Answer → Bool
is_fine (mkdir_run v) exists = true
is_fine (mkdir_dev v) exists = true
is_fine c a = is_done a

-- The variables of `Spawn`.
pub record Frame (W : Type 0) : Type 0 where
  pub host : Host W
  pub stack : List Undo
  pub uid : ℕ
  pub ip : Addresses.Address
  pub active : List PortMapping

abbrev pub Stage : Type 0 → Type 0
Stage W = Frame W → Frame W × Bool

module _ {W : Type 0} where
  abbrev pub push : Undo → Frame W → Frame W
  push u s = record s { stack = u ∷ s.stack }

  abbrev pub set_world : W → Frame W → Frame W
  set_world w s = record s { host = record (s.host) { world = w } }

  -- A stage after another, unless that one failed.
  unfoldable pub run_stages : List (Stage W) → Stage W
  run_stages [] s = (s, true)
  run_stages (t ∷ ts) s =
      let (s', ok) = t s in let rest = run_stages ts s' in if ok then rest else (s', false)

module _ {W : Type 0} (f : Factory W) (vm : ℕ) (config : TenantConfig) where
  -- A command that has to succeed and leaves nothing to undo.
  unfoldable pub do_command : Command → Stage W
  do_command c s = let (w, a) = f.machine.run c s.host.world in (set_world w s, is_fine c a)

  -- A command that has to succeed, and what undoes it.
  unfoldable pub do_undoable : Command → Undo → Stage W
  do_undoable c u s =
      let (w, a) = f.machine.run c s.host.world in
      if is_done a then (push u (set_world w s), true) else (set_world w s, false)

  unfoldable pub lease_uid : Stage W
  lease_uid s =
      let (uids, r) = checkout s.host.uids in
      let s' = record s { host = record (s.host) { uids = uids } } in
      elim r [
        | inl e ↦ (s', false)
        | inr uid ↦ (push (return_leased uid) (record s' { uid = uid }), true)
      ]

  abbrev pub is_nil : List ℕ → Bool
  is_nil [] = true
  is_nil (x ∷ xs) = false

  -- The image and the command.
  unfoldable pub prepare_image : Stage W
  prepare_image s = (
    s,
    if f.warm_image config.image
        then elim (f.image_config config.image) [
          | none ↦ false
          | some image ↦ not (is_nil (final_command image config.command))
        ]
        else false,
  )

  -- The directory of the jail: only one that was made here is removed later.
  unfoldable pub make_jail : Stage W
  make_jail s =
      let (w, a) = f.machine.run (mkdir_root vm) s.host.world in
      elim a [
        | done ↦ (push remove_jail (set_world w s), true)
        | exists ↦ (set_world w s, true)
        | failed ↦ (set_world w s, false)
      ]

  unfoldable pub acquire_ip : Stage W
  acquire_ip s =
      let (ipam, r) = Addresses.acquire f.rounds s.host.ipam in
      let s' = record s { host = record (s.host) { ipam = ipam } } in
      elim r [
        | Addresses.got ip ↦ (push (release_ip ip) (record s' { ip = ip }), true)
        | _ ↦ (s', false)
      ]

  unfoldable pub make_tap : Stage W
  make_tap s =
      let t = f.tap_name vm in
      let (w, ok) = create_tap f.machine true t (delete_tap f.machine t s.host.world).0 in
      if ok then (push drop_tap (set_world w s), true) else (set_world w s, false)

  -- After the agent has answered nothing fails until the port mappings.
  unfoldable pub register_agent : Stage W
  register_agent s = (push cancel_context (push close_conn s), true)

  -- One round of the loop over the port mappings.
  unfoldable pub map_port : PortMapping → Stage W
  map_port pm s =
      let (ports, r) =
        allocate f.listen s.host.ports pm.host_port pm.protocol pm.host_interface vm in
      let s' = record s { host = record (s.host) { ports = ports } } in
      elim r [
        | Ports.refused e ↦ (s', false)
        | Ports.granted port ↦
            let (w, ok) =
              add_port_mapping f.machine f.names pm.host_interface port (f.text s.ip) pm.guest_port
                pm.protocol s.host.world in
            let s1 = push (release_port port) (set_world w s') in
            if ok
            then (
              record (push (remove_mapping pm.host_interface port s.ip pm.guest_port pm.protocol)
                  s1) { active = s.active ++ record pm { host_port = port } ∷ [] },
              true,
            )
            else (s1, false)
      ]

  abbrev pub map_ports : List PortMapping → List (Stage W)
  map_ports [] = []
  map_ports (pm ∷ pms) = map_port pm ∷ map_ports pms

  -- `Spawn` from the snapshot to the block device.
  abbrev pub storage_stages : List (Stage W)
  storage_stages =
      do_undoable (make_snapshot vm) teardown_storage
      ∷ do_command (inject_agent vm)
      ∷ do_command (mkdir_parent vm)
      ∷ make_jail
      ∷ do_command (chown_root vm)
      ∷ do_command (mkdir_run vm)
      ∷ do_command (chown_run vm)
      ∷ do_command (mkdir_dev vm)
      ∷ do_command (chown_dev vm)
      ∷ do_command (link_kernel vm)
      ∷ do_command (bind_device vm)
      ∷ []

  -- From the address to the agent's answer.
  abbrev pub boot_stages : List (Stage W)
  boot_stages =
      acquire_ip
      ∷ make_tap
      ∷ do_command (write_config vm)
      ∷ do_undoable (start vm) kill_process
      ∷ do_command (connect vm)
      ∷ register_agent
      ∷ []

  -- What comes after the user id.
  abbrev pub stages : List (Stage W)
  stages = prepare_image ∷ storage_stages ++ boot_stages ++ map_ports config.port_mappings

  abbrev pub frame_of : Host W → Frame W
  frame_of h = record { host = h; stack = []; uid = 0; ip = []; active = [] }

  -- What is returned, and the deferred rollback.
  unfoldable pub finish : Frame W × Bool → Host W × Option FirecrackerWorker
  finish (s, true) = (
    s.host,
    some (record { id = vm; guest_ip = s.ip; leased_uid = s.uid; port_mappings = s.active }),
  )
  finish (s, false) = (unwind f vm s.stack s.host, none)

  unfoldable pub spawn : Host W → Host W × Option FirecrackerWorker
  unfolding finish
  spawn h = finish (run_stages (lease_uid ∷ stages) (frame_of h))
