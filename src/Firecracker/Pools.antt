-- ===== src/Firecracker/Pools.antt =====
-- That a `Spawn` that fails gives back the ports and addresses that it took.
use herd.Common.{
  ℕ, ◌+◌, ◌≡◌, ◌≢◌, ◌<◌, inl, inr, refl, Bool, false, List, [], ◌∷◌, ◌++◌, Option, none, some,
  if◌then◌else◌, ◌==◌, one, arith, All, lookup, lookup-delete,
}
use herd.Network.Ports.Defs.{allocate}
use herd.Network.Ports.Defs as Ports
use herd.Network.Ports.Allocation.{allocate_granted, allocate-refused}
use herd.Network.Ipam.Defs.{Address, address_eq, is_used}
use herd.Network.Ipam.Defs as Addresses
use herd.Network.Ipam.InUse.{is_used-release, search-is_used}
use herd.Tenant.{PortMapping, TenantConfig}
use herd.Host.Machine.{
  Command, make_snapshot, inject_agent, mkdir_parent, chown_root, mkdir_run, chown_run, mkdir_dev,
  chown_dev, link_kernel, bind_device, write_config, start, connect,
}
use herd.Firecracker.Defs.{
  Host, Factory, Undo, return_leased, release_port, teardown_storage, remove_jail, drop_tap,
  kill_process, close_conn, cancel_context, release_ip, remove_mapping, perform, unwind,
}
use herd.Firecracker.Spawn.{
  Frame, run_stages, do_command, do_undoable, lease_uid, prepare_image, make_jail, acquire_ip,
  make_tap, register_agent, map_port, map_ports, storage_stages, boot_stages, stages, frame_of,
  spawn,
}
use herd.Firecracker.Stages.{Keeps, run_stages-Keeps, append-All}
use herd.Firecracker.Unwind.{granted_or_refused}

module _ {W : Type 0} (f : Factory W) (vm p : ℕ) (a : Address) where
  -- How often the undo stack releases the port, and the address.
  abbrev releases : Undo → ℕ
  releases (release_port r) = one (r == p)
  releases _ = 0

  abbrev frees : Undo → ℕ
  frees (release_ip ip) = one (address_eq ip a)
  frees _ = 0

  abbrev released : List Undo → ℕ
  released [] = 0
  released (u ∷ us) = releases u + released us

  abbrev freed : List Undo → ℕ
  freed [] = 0
  freed (u ∷ us) = frees u + freed us

  abbrev used : Host W → Bool
  used h = is_used a h.ipam.used

  perform-pools :
      (u : Undo) (h : Host W)
      → (lookup p (perform f vm u h).ports.in_use
          ≡ (if releases u == 0 then lookup p h.ports.in_use else none))
        × (used (perform f vm u h) ≡ (if frees u == 0 then used h else false))
  unfolding perform Ports.release
  perform-pools (return_leased uid) h = (refl, refl)
  perform-pools (release_port r) h = (ground (arith, lookup-delete r p h.ports.in_use), refl)
  perform-pools teardown_storage h = (refl, refl)
  perform-pools remove_jail h = (refl, refl)
  perform-pools drop_tap h = (refl, refl)
  perform-pools kill_process h = (refl, refl)
  perform-pools close_conn h = (refl, refl)
  perform-pools cancel_context h = (refl, refl)
  perform-pools (release_ip ip) h = (refl, ground (arith, is_used-release h.ipam ip a))
  perform-pools (remove_mapping iface port ip guest_port protocol) h = (refl, refl)

  unwind-pools :
      (us : List Undo) (h : Host W)
      → (lookup p (unwind f vm us h).ports.in_use
          ≡ (if released us == 0 then lookup p h.ports.in_use else none))
        × (used (unwind f vm us h) ≡ (if freed us == 0 then used h else false))
  unfolding unwind
  unwind-pools [] h = (refl, refl)
  unwind-pools (u ∷ us) h = ground (arith, perform-pools u h, unwind-pools us (perform f vm u h))

  module _ (config : TenantConfig) (before : Option ℕ) (was : Bool) where
    -- What the stages took was free before, and is on the stack.
    abbrev Taken : Frame W → Type 0
    Taken s =
        ((released s.stack ≡ 0 → lookup p s.host.ports.in_use ≡ before)
          × (0 < released s.stack → before ≡ none))
        × ((freed s.stack ≡ 0 → used s.host ≡ was) × (0 < freed s.stack → was ≡ false))

    do_command-Taken : (c : Command) → Keeps Taken (do_command f vm config c)
    unfolding do_command
    do_command-Taken c s h = h

    do_undoable-Taken :
        (c : Command) (u : Undo)
        → releases u ≡ 0
        → frees u ≡ 0
        → Keeps Taken (do_undoable f vm config c u)
    unfolding do_undoable
    do_undoable-Taken c u r e s h = ground arith

    lease_uid-Taken : Keeps Taken (lease_uid f vm config)
    unfolding lease_uid
    lease_uid-Taken s h = ground arith

    prepare_image-Taken : Keeps Taken (prepare_image f vm config)
    unfolding prepare_image
    prepare_image-Taken s h = h

    make_jail-Taken : Keeps Taken (make_jail f vm config)
    unfolding make_jail
    make_jail-Taken s h = ground arith

    make_tap-Taken : Keeps Taken (make_tap f vm config)
    unfolding make_tap
    make_tap-Taken s h = ground arith

    register_agent-Taken : Keeps Taken (register_agent f vm config)
    unfolding register_agent
    register_agent-Taken s h = ground arith

    acquire_ip-Taken : Keeps Taken (acquire_ip f vm config)
    unfolding acquire_ip Addresses.acquire
    acquire_ip-Taken s h = ground (arith, search-is_used f.rounds s.host.ipam.next_ip a s.host.ipam)

    map_port-Taken : (pm : PortMapping) → before ≢ some vm → Keeps Taken (map_port f vm config pm)
    unfolding map_port
    map_port-Taken pm other s h =
        let r = allocate f.listen s.host.ports pm.host_port pm.protocol pm.host_interface vm in
        elim (granted_or_refused r.1) [
          | inl (port, e) ↦ ground (
            arith,
            allocate_granted f.listen s.host.ports r.0 pm.host_port pm.protocol pm.host_interface vm
                port p,
          )
          | inr (x, e) ↦ ground (
            arith,
            allocate-refused f.listen s.host.ports r.0 pm.host_port pm.protocol pm.host_interface vm
                x,
          )
        ]

    map_ports-Taken :
        (pms : List PortMapping) → before ≢ some vm → All (Keeps Taken) (map_ports f vm config pms)
    map_ports-Taken [] other = tt
    map_ports-Taken (pm ∷ pms) other = (map_port-Taken pm other, map_ports-Taken pms other)

    storage_stages-Taken : All (Keeps Taken) (storage_stages f vm config)
    storage_stages-Taken = (
      do_undoable-Taken (make_snapshot vm) teardown_storage refl refl,
      (
        do_command-Taken (inject_agent vm),
        (
          do_command-Taken (mkdir_parent vm),
          (
            make_jail-Taken,
            (
              do_command-Taken (chown_root vm),
              (
                do_command-Taken (mkdir_run vm),
                (
                  do_command-Taken (chown_run vm),
                  (
                    do_command-Taken (mkdir_dev vm),
                    (
                      do_command-Taken (chown_dev vm),
                      (do_command-Taken (link_kernel vm), (do_command-Taken (bind_device vm), tt)),
                    ),
                  ),
                ),
              ),
            ),
          ),
        ),
      ),
    )

    boot_stages-Taken : All (Keeps Taken) (boot_stages f vm config)
    boot_stages-Taken = (
      acquire_ip-Taken,
      (
        make_tap-Taken,
        (
          do_command-Taken (write_config vm),
          (
            do_undoable-Taken (start vm) kill_process refl refl,
            (do_command-Taken (connect vm), (register_agent-Taken, tt)),
          ),
        ),
      ),
    )

    stages-Taken :
        before ≢ some vm → Keeps Taken (run_stages (lease_uid f vm config ∷ stages f vm config))
    stages-Taken other = run_stages-Keeps Taken _ (
      lease_uid-Taken,
      (
        prepare_image-Taken,
        append-All Taken (storage_stages f vm config)
            (boot_stages f vm config ++ map_ports f vm config config.port_mappings)
            storage_stages-Taken
            (append-All Taken (boot_stages f vm config) (map_ports f vm config config.port_mappings)
              boot_stages-Taken (map_ports-Taken config.port_mappings other)),
      ),
    )

  -- A `Spawn` that fails leaves a port that the machine did not own before with the owner that it had,
  -- or with none, and every guest address used or unused as it was.
  pub spawn_failed-pools :
      (config : TenantConfig) (h : Host W)
      → lookup p h.ports.in_use ≢ some vm
      → (spawn f vm config h).1 ≡ none
      → (lookup p (spawn f vm config h).0.ports.in_use ≡ lookup p h.ports.in_use)
        × (is_used a (spawn f vm config h).0.ipam.used ≡ is_used a h.ipam.used)
  unfolding spawn
  spawn_failed-pools config h other none_made =
      let s = run_stages (lease_uid f vm config ∷ stages f vm config) (frame_of f vm config h) in
      ground (
        arith,
        unwind-pools s.0.stack s.0.host,
        stages-Taken config (lookup p h.ports.in_use) (used h) other (frame_of f vm config h)
            ((λ e. refl, λ e. absurd (omega arith)), (λ e. refl, λ e. absurd (omega arith))),
      )
