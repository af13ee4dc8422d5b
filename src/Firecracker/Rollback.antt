-- ===== src/Firecracker/Rollback.antt =====
-- What a `Spawn` that fails leaves behind.
use herd.Common.{
  ℕ, ◌+◌, ◌≡◌, ◌≢◌, sym, ◌≤◌, inl, inr, true, List, [], ◌∷◌, ◌++◌, if◌then◌else◌, arith, All,
}
use herd.Network.Ports.Defs.{allocate}
use herd.Tenant.{PortMapping, TenantConfig}
use herd.Host.Machine.{
  Resource, tap, snapshot, process, Command, make_snapshot, inject_agent, mkdir_parent, mkdir_root,
  chown_root, mkdir_run, chown_run, mkdir_dev, chown_dev, link_kernel, bind_device, write_config,
  start, connect, after, same, same_refl, same_eq, jail_base, Removes,
}
use herd.Network.Nat.Defs.{is_done, delete_tap}
use herd.Network.Nat.Mappings.{add_port_mapping_le}
use herd.Network.Nat.Taps.{create_tap-count, delete_tap-count}
use herd.Firecracker.Defs.{Host, Factory, Undo, teardown_storage, kill_process}
use herd.Firecracker.Stages.{Keeps, run_stages-Keeps, append-All}
use herd.Firecracker.Spawn.{
  Frame, run_stages, do_command, do_undoable, lease_uid, prepare_image, make_jail, acquire_ip,
  make_tap, register_agent, map_port, map_ports, storage_stages, boot_stages, stages,
}
use herd.Firecracker.Unwind.{granted_or_refused, amount, weight, pending}

module _ {W : Type 0} (f : Factory W) (vm : ℕ) (q : Resource) where
  -- What the stages made is on the stack.
  abbrev pub Covered : ℕ → Frame W → Type 0
  Covered n s = amount f vm q s.host ≤ n + pending f vm q s.stack

  module _ (ok : Removes f.machine) (not_base : q ≢ jail_base vm) (config : TenantConfig) where
    module _ (n : ℕ) where
      lease_uid-Covered : Keeps (Covered n) (lease_uid f vm config)
      unfolding lease_uid
      lease_uid-Covered s h = ground arith

      prepare_image-Covered : Keeps (Covered n) (prepare_image f vm config)
      unfolding prepare_image
      prepare_image-Covered s h = h

      make_jail-Covered : Keeps (Covered n) (make_jail f vm config)
      unfolding make_jail after
      make_jail-Covered s h = ground (arith, f.machine.run-count (mkdir_root vm) q s.host.world)

      acquire_ip-Covered : Keeps (Covered n) (acquire_ip f vm config)
      unfolding acquire_ip
      acquire_ip-Covered s h = ground arith

      register_agent-Covered : Keeps (Covered n) (register_agent f vm config)
      unfolding register_agent
      register_agent-Covered s h = ground arith

      make_tap-Covered : Keeps (Covered n) (make_tap f vm config)
      unfolding make_tap
      make_tap-Covered s h =
          let t = f.tap_name vm in
          let w = (delete_tap f.machine t s.host.world).0 in
          ground (
            arith,
            create_tap-count f.machine ok true t q w,
            delete_tap-count f.machine ok t q s.host.world,
            delete_tap-count f.machine ok t (tap t) s.host.world,
            same_refl (tap t),
          )

      map_port-Covered : (pm : PortMapping) → Keeps (Covered n) (map_port f vm config pm)
      unfolding map_port
      map_port-Covered pm s h =
          let r = allocate f.listen s.host.ports pm.host_port pm.protocol pm.host_interface vm in
          elim (granted_or_refused r.1) [
            | inl (port, e) ↦ ground (
              arith,
              add_port_mapping_le f.machine ok f.names pm.host_interface port (f.text s.ip)
                  pm.guest_port pm.protocol q s.host.world,
            )
            | inr (x, e) ↦ ground arith
          ]

      map_ports-Covered :
          (pms : List PortMapping) → All (Keeps (Covered n)) (map_ports f vm config pms)
      map_ports-Covered [] = tt
      map_ports-Covered (pm ∷ pms) = (map_port-Covered pm, map_ports-Covered pms)

      -- The commands that make nothing.
      abbrev Plain : Command → Type 0
      Plain c = (w : W) → f.machine.count q (f.machine.run c w).0 ≡ f.machine.count q w

      do_command-Covered : (c : Command) → Plain c → Keeps (Covered n) (do_command f vm config c)
      unfolding do_command
      do_command-Covered c plain s h = ground (arith, plain s.host.world)

      do_undoable-Covered :
          (c : Command) (u : Undo)
          → ((w : W)
              → f.machine.count q (f.machine.run c w).0
                ≡ f.machine.count q w
                  + (if is_done (f.machine.run c w).1 then weight f vm q u else 0))
          → Keeps (Covered n) (do_undoable f vm config c u)
      unfolding do_undoable
      do_undoable-Covered c u makes s h = ground (arith, makes s.host.world)

      start_count :
          (w : W)
          → f.machine.count q (f.machine.run (start vm) w).0
            ≡ f.machine.count q w
              + (if is_done (f.machine.run (start vm) w).1 then same (process vm) q else 0)
      unfolding after
      start_count w = ground (arith, f.machine.run-count (start vm) q w)

      snapshot_count :
          (w : W)
          → f.machine.count q (f.machine.run (make_snapshot vm) w).0
            ≡ f.machine.count q w
              + (if is_done (f.machine.run (make_snapshot vm) w).1 then same (snapshot vm) q else 0)
      unfolding after
      snapshot_count w = ground (arith, f.machine.run-count (make_snapshot vm) q w)

      mkdir_parent_count : Plain (mkdir_parent vm)
      unfolding after
      mkdir_parent_count w = elim (same_eq (jail_base vm) q) [
        | inl e ↦ ground (arith, e, f.machine.run-count (mkdir_parent vm) q w)
        | inr e ↦ absurd (not_base (sym e))
      ]

      storage_stages-Covered : All (Keeps (Covered n)) (storage_stages f vm config)
      unfolding after
      storage_stages-Covered = (
        do_undoable-Covered (make_snapshot vm) teardown_storage snapshot_count,
        (
          do_command-Covered (inject_agent vm) (f.machine.run-count (inject_agent vm) q),
          (
            do_command-Covered (mkdir_parent vm) mkdir_parent_count,
            (
              make_jail-Covered,
              (
                do_command-Covered (chown_root vm) (f.machine.run-count (chown_root vm) q),
                (
                  do_command-Covered (mkdir_run vm) (f.machine.run-count (mkdir_run vm) q),
                  (
                    do_command-Covered (chown_run vm) (f.machine.run-count (chown_run vm) q),
                    (
                      do_command-Covered (mkdir_dev vm) (f.machine.run-count (mkdir_dev vm) q),
                      (
                        do_command-Covered (chown_dev vm) (f.machine.run-count (chown_dev vm) q),
                        (
                          do_command-Covered (link_kernel vm)
                              (f.machine.run-count (link_kernel vm) q),
                          (
                            do_command-Covered (bind_device vm)
                                (f.machine.run-count (bind_device vm) q),
                            tt,
                          ),
                        ),
                      ),
                    ),
                  ),
                ),
              ),
            ),
          ),
        ),
      )

      boot_stages-Covered : All (Keeps (Covered n)) (boot_stages f vm config)
      unfolding after
      boot_stages-Covered = (
        acquire_ip-Covered,
        (
          make_tap-Covered,
          (
            do_command-Covered (write_config vm) (f.machine.run-count (write_config vm) q),
            (
              do_undoable-Covered (start vm) kill_process start_count,
              (
                do_command-Covered (connect vm) (f.machine.run-count (connect vm) q),
                (register_agent-Covered, tt),
              ),
            ),
          ),
        ),
      )

      pub stages-Covered :
          Keeps (Covered n) (run_stages (lease_uid f vm config ∷ stages f vm config))
      stages-Covered = run_stages-Keeps (Covered n) _ (
        lease_uid-Covered,
        (
          prepare_image-Covered,
          append-All (Covered n) (storage_stages f vm config)
              (boot_stages f vm config ++ map_ports f vm config config.port_mappings)
              storage_stages-Covered
              (append-All (Covered n) (boot_stages f vm config)
                (map_ports f vm config config.port_mappings) boot_stages-Covered
                (map_ports-Covered config.port_mappings)),
        ),
      )
