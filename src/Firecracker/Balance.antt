-- ===== src/Firecracker/Balance.antt =====
-- That `Close` of a worker undoes the `Spawn` that made it.
use herd.Common.{
  ℕ, ◌+◌, ◌≡◌, ◌≢◌, ◌≤◌, refl, sym, ap, subst, ◌∙◌, Bool, Bool-cases, true, false, List, [], ◌∷◌,
  ◌++◌, some, inl, inr, ◌==◌, arith,
}
use herd.Network.Ports.Defs.{allocate}
use herd.Network.Ipam.Defs.{Address}
use herd.Tenant.{PortMapping, TenantConfig}
use herd.Host.Machine.{
  Resource, tap, snapshot, jail, process, same, Command, make_snapshot, inject_agent, mkdir_parent,
  chown_root, mkdir_run, chown_run, mkdir_dev, chown_dev, link_kernel, bind_device, write_config,
  start, connect, jail_base, Removes,
}
use herd.Firecracker.Defs.{
  Host, Factory, Undo, teardown_storage, kill_process, remove_mapping, FirecrackerWorker, close,
}
use herd.Firecracker.Spawn.{
  Frame, Stage, run_stages, do_command, do_undoable, lease_uid, prepare_image, make_jail,
  acquire_ip, make_tap, register_agent, map_port, map_ports, stages, frame_of, finish, spawn,
}
use herd.Firecracker.Unwind.{granted_or_refused, weight, pending}
use herd.Firecracker.Rollback.{stages-Covered}
use herd.Firecracker.Close.{entries, mapping_entries, close-unwind}

module _ {W : Type 0} (f : Factory W) (vm : ℕ) (q : Resource) where
  -- What a stage that succeeds adds to the stack at most; it maps no port.
  abbrev Adds : ℕ → Stage W → Type 0
  Adds c t =
      (s : Frame W)
      → (t s).1 ≡ true
      → (pending f vm q (t s).0.stack ≤ pending f vm q s.stack + c) × ((t s).0.active ≡ s.active)

  -- Stages with what they add.
  abbrev AllAdd : List (Stage W × ℕ) → Type 0
  AllAdd [] = Unit
  AllAdd ((t, c) ∷ ts) = Adds c t × AllAdd ts

  abbrev only_stages : List (Stage W × ℕ) → List (Stage W)
  only_stages [] = []
  only_stages ((t, c) ∷ ts) = t ∷ only_stages ts

  abbrev cost : List (Stage W × ℕ) → ℕ
  cost [] = 0
  cost ((t, c) ∷ ts) = c + cost ts

  run_stages_add :
      (ts : List (Stage W × ℕ)) → AllAdd ts → Adds (cost ts) (run_stages (only_stages ts))
  unfolding run_stages
  run_stages_add [] a s ok = (omega arith, refl)
  run_stages_add ((t, c) ∷ ts) (a, as_) s ok = ground (arith, a s, run_stages_add ts as_ (t s).0)

  run_stages-split :
      (ts us : List (Stage W)) (s : Frame W)
      → (run_stages (ts ++ us) s).1 ≡ true
      → ((run_stages ts s).1 ≡ true) × (run_stages (ts ++ us) s ≡ run_stages us (run_stages ts s).0)
  unfolding run_stages
  run_stages-split [] us s ok = (refl, refl)
  run_stages-split (t ∷ ts) us s ok = ground (arith, run_stages-split ts us (t s).0)

  -- What the mappings of the worker would add.
  abbrev mapped_of : Frame W → ℕ
  mapped_of s = pending f vm q (mapping_entries f s.ip s.active)

  abbrev Maps : Stage W → Type 0
  Maps t =
      (s : Frame W)
      → (t s).1 ≡ true
      → (pending f vm q (t s).0.stack + mapped_of s ≤ pending f vm q s.stack + mapped_of (t s).0)
        × ((t s).0.ip ≡ s.ip)

  mapping_entries_snoc :
      (ip : Address) (pms : List PortMapping) (pm : PortMapping)
      → pending f vm q (mapping_entries f ip (pms ++ pm ∷ []))
        ≡ pending f vm q (mapping_entries f ip pms)
          + weight f vm q
              (remove_mapping pm.host_interface pm.host_port ip pm.guest_port pm.protocol)
  mapping_entries_snoc ip [] pm = omega arith
  mapping_entries_snoc ip (p ∷ pms) pm = omega (arith, mapping_entries_snoc ip pms pm)

  module _ (config : TenantConfig) where
    map_port-Maps : (pm : PortMapping) → Maps (map_port f vm config pm)
    unfolding map_port
    map_port-Maps pm s ok =
        let r = allocate f.listen s.host.ports pm.host_port pm.protocol pm.host_interface vm in
        elim (granted_or_refused r.1) [
          | inl (port, e) ↦
              ground (arith, mapping_entries_snoc s.ip s.active (record pm { host_port = port }))
          | inr (x, e) ↦ ground arith
        ]

    map_ports-Maps : (pms : List PortMapping) → Maps (run_stages (map_ports f vm config pms))
    unfolding run_stages
    map_ports-Maps [] s ok = (omega arith, refl)
    map_ports-Maps (pm ∷ pms) s ok =
        ground (arith, map_port-Maps pm s, map_ports-Maps pms (map_port f vm config pm s).0)

    do_command-Adds : (c : Command) → Adds 0 (do_command f vm config c)
    unfolding do_command
    do_command-Adds c s ok = (omega arith, refl)

    do_undoable-Adds :
        (c : Command) (u : Undo) → Adds (weight f vm q u) (do_undoable f vm config c u)
    unfolding do_undoable
    do_undoable-Adds c u s ok = ground arith

    lease_uid-Adds : Adds 0 (lease_uid f vm config)
    unfolding lease_uid
    lease_uid-Adds s ok = ground arith

    prepare_image-Adds : Adds 0 (prepare_image f vm config)
    unfolding prepare_image
    prepare_image-Adds s ok = (omega arith, refl)

    make_jail-Adds : Adds (same (jail vm) q) (make_jail f vm config)
    unfolding make_jail
    make_jail-Adds s ok = ground arith

    acquire_ip-Adds : Adds 0 (acquire_ip f vm config)
    unfolding acquire_ip
    acquire_ip-Adds s ok = ground arith

    make_tap-Adds : Adds (same (tap (f.tap_name vm)) q) (make_tap f vm config)
    unfolding make_tap
    make_tap-Adds s ok = ground arith

    register_agent-Adds : Adds 0 (register_agent f vm config)
    unfolding register_agent
    register_agent-Adds s ok = (omega arith, refl)

    -- The stages before the port mappings.
    abbrev early : List (Stage W × ℕ)
    early =
        (lease_uid f vm config, 0)
        ∷ (prepare_image f vm config, 0)
        ∷ (do_undoable f vm config (make_snapshot vm) teardown_storage, same (snapshot vm) q)
        ∷ (do_command f vm config (inject_agent vm), 0)
        ∷ (do_command f vm config (mkdir_parent vm), 0)
        ∷ (make_jail f vm config, same (jail vm) q)
        ∷ (do_command f vm config (chown_root vm), 0)
        ∷ (do_command f vm config (mkdir_run vm), 0)
        ∷ (do_command f vm config (chown_run vm), 0)
        ∷ (do_command f vm config (mkdir_dev vm), 0)
        ∷ (do_command f vm config (chown_dev vm), 0)
        ∷ (do_command f vm config (link_kernel vm), 0)
        ∷ (do_command f vm config (bind_device vm), 0)
        ∷ (acquire_ip f vm config, 0)
        ∷ (make_tap f vm config, same (tap (f.tap_name vm)) q)
        ∷ (do_command f vm config (write_config vm), 0)
        ∷ (do_undoable f vm config (start vm) kill_process, same (process vm) q)
        ∷ (do_command f vm config (connect vm), 0)
        ∷ (register_agent f vm config, 0)
        ∷ []

    early-AllAdd : AllAdd early
    early-AllAdd = (
      lease_uid-Adds,
      (
        prepare_image-Adds,
        (
          do_undoable-Adds (make_snapshot vm) teardown_storage,
          (
            do_command-Adds (inject_agent vm),
            (
              do_command-Adds (mkdir_parent vm),
              (
                make_jail-Adds,
                (
                  do_command-Adds (chown_root vm),
                  (
                    do_command-Adds (mkdir_run vm),
                    (
                      do_command-Adds (chown_run vm),
                      (
                        do_command-Adds (mkdir_dev vm),
                        (
                          do_command-Adds (chown_dev vm),
                          (
                            do_command-Adds (link_kernel vm),
                            (
                              do_command-Adds (bind_device vm),
                              (
                                acquire_ip-Adds,
                                (
                                  make_tap-Adds,
                                  (
                                    do_command-Adds (write_config vm),
                                    (
                                      do_undoable-Adds (start vm) kill_process,
                                      (do_command-Adds (connect vm), (register_agent-Adds, tt)),
                                    ),
                                  ),
                                ),
                              ),
                            ),
                          ),
                        ),
                      ),
                    ),
                  ),
                ),
              ),
            ),
          ),
        ),
      ),
    )

    -- A `Spawn` that succeeds.
    spawned : Host W → Frame W × Bool
    spawned h = run_stages (lease_uid f vm config ∷ stages f vm config) (frame_of f vm config h)

    spawned-pending :
        (h : Host W)
        → (spawned h).1 ≡ true
        → pending f vm q (spawned h).0.stack ≤ cost early + mapped_of (spawned h).0
    unfolding spawned
    spawned-pending h ok =
        let s = frame_of f vm config h in
        let pms = map_ports f vm config config.port_mappings in
        let (ok', e) = run_stages-split (only_stages early) pms s ok in
        let s1 = (run_stages (only_stages early) s).0 in
        ground (
          arith,
          run_stages_add early early-AllAdd s ok',
          map_ports-Maps config.port_mappings s1 (ap (λ (r : Frame W × Bool). r.1) (sym e) ∙ ok),
          ap (λ (r : Frame W × Bool). pending f vm q r.0.stack) e,
          ap (λ (r : Frame W × Bool). mapped_of r.0) e,
        )

    abbrev worker_of : Frame W → FirecrackerWorker
    worker_of s = record { id = vm; guest_ip = s.ip; leased_uid = s.uid; port_mappings = s.active }

    pending-entries :
        (s : Frame W) → pending f vm q (entries f (worker_of s)) ≡ cost early + mapped_of s
    pending-entries s = elim (Bool-cases (s.uid == 0)) [
      | inl e ↦ ground arith
      | inr e ↦ ground arith
    ]

    finish-some :
        (r : Frame W × Bool) (h : Host W) (w : FirecrackerWorker)
        → finish f vm config r ≡ (h, some w)
        → (r.1 ≡ true) × (r.0.host ≡ h) × (worker_of r.0 ≡ w)
    unfolding finish
    finish-some (s, true) h w e = (refl, cc, cc)
    finish-some (s, false) h w e = cc

    -- Where no removal of what is there fails, a worker that `Spawn` made and that is closed at once
    -- leaves no more iptables rules, interfaces, snapshots, jails and processes than there were before
    -- `Spawn`. This excepts the directory that holds the jail.
    pub close-spawn :
        Removes f.machine
        → q ≢ jail_base vm
        → (h h' : Host W) (w : FirecrackerWorker) → spawn f vm config h ≡ (h', some w)
        → f.machine.count q (close f w h').world ≤ f.machine.count q h.world
    unfolding spawn spawned
    close-spawn ok not_base h h' w e =
        let (made, eh, ew) = finish-some (spawned h) h' w e in
        let s = (spawned h).0 in
        let bound : f.machine.count q (close f (worker_of s) s.host).world
            ≤ f.machine.count q h.world =
          ground (
            arith,
            (close-unwind f ok (worker_of s) q s.host).1,
            pending-entries s,
            spawned-pending h made,
            stages-Covered f vm q ok not_base config (f.machine.count q h.world)
                (frame_of f vm config h) (omega arith),
          ) in
        subst (λ (x : Host W). f.machine.count q (close f w x).world ≤ f.machine.count q h.world) eh
          (subst
            (λ (x : FirecrackerWorker).
              f.machine.count q (close f x s.host).world ≤ f.machine.count q h.world)
            ew bound)
