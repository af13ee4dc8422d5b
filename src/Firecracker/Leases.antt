-- ===== src/Firecracker/Leases.antt =====
-- That a `Spawn` gives back the user id that it leased, or hands it to its worker.
use herd.Common.{
  ℕ, ◌≡◌, refl, sym, subst, Bool, true, false, List, [], ◌∷◌, ◌++◌, Option, none, some, inl, inr,
  arith, All,
}
use herd.Uid.Defs.{checkout, exhausted}
use herd.Uid.Defs as Uids
use herd.Uid.Leases.{House, IsSound, checkout-cases, lease_taken-IsSound, give_back_first-IsSound}
use herd.Tenant.{PortMapping, TenantConfig}
use herd.Host.Machine.{
  Command, make_snapshot, inject_agent, mkdir_parent, chown_root, mkdir_run, chown_run, mkdir_dev,
  chown_dev, link_kernel, bind_device, write_config, start, connect,
}
use herd.Firecracker.Defs.{
  Host, Factory, Undo, return_leased, release_port, teardown_storage, remove_jail, drop_tap,
  kill_process, close_conn, cancel_context, release_ip, remove_mapping, perform, unwind,
  FirecrackerWorker,
}
use herd.Firecracker.Spawn.{
  Frame, Stage, run_stages, do_command, do_undoable, lease_uid, prepare_image, make_jail,
  acquire_ip, make_tap, register_agent, map_port, map_ports, storage_stages, boot_stages, stages,
  frame_of, finish, spawn,
}
use herd.Firecracker.Stages.{Keeps, run_stages-Keeps, append-All}

module _ {W : Type 0} (f : Factory W) (vm : ℕ) (others : List ℕ) where
  -- The user ids that the undo stack returns.
  abbrev ids : List Undo → List ℕ
  ids [] = []
  ids (return_leased uid ∷ us) = uid ∷ ids us
  ids (u ∷ us) = ids us

  abbrev pub house : Host W → List ℕ → House
  house h us = record { pool = h.uids; leased = us }

  perform-IsSound :
      (u : Undo) (us : List Undo) (h : Host W)
      → IsSound (house h (ids (u ∷ us) ++ others))
      → IsSound (house (perform f vm u h) (ids us ++ others))
  unfolding perform
  perform-IsSound (return_leased uid) us h v =
      give_back_first-IsSound h.uids uid (ids us ++ others) v
  perform-IsSound (release_port r) us h v = v
  perform-IsSound teardown_storage us h v = v
  perform-IsSound remove_jail us h v = v
  perform-IsSound drop_tap us h v = v
  perform-IsSound kill_process us h v = v
  perform-IsSound close_conn us h v = v
  perform-IsSound cancel_context us h v = v
  perform-IsSound (release_ip ip) us h v = v
  perform-IsSound (remove_mapping iface port ip guest_port protocol) us h v = v

  unwind-IsSound :
      (us : List Undo) (h : Host W)
      → IsSound (house h (ids us ++ others))
      → IsSound (house (unwind f vm us h) others)
  unfolding unwind
  unwind-IsSound [] h v = v
  unwind-IsSound (u ∷ us) h v = unwind-IsSound us (perform f vm u h) (perform-IsSound u us h v)

  module _ (config : TenantConfig) (pool : Uids.Pool) (uid : ℕ) where
    -- After the first stage nothing leases or returns an id.
    abbrev Leased : Frame W → Type 0
    Leased s = (s.host.uids ≡ pool) × (s.uid ≡ uid) × (ids s.stack ≡ uid ∷ [])

    do_command-Leased : (c : Command) → Keeps Leased (do_command f vm config c)
    unfolding do_command
    do_command-Leased c s h = h

    do_undoable-Leased :
        (c : Command) (u : Undo)
        → ((us : List Undo) → ids (u ∷ us) ≡ ids us)
        → Keeps Leased (do_undoable f vm config c u)
    unfolding do_undoable
    do_undoable-Leased c u e s h = ground (arith, e s.stack)

    prepare_image-Leased : Keeps Leased (prepare_image f vm config)
    unfolding prepare_image
    prepare_image-Leased s h = h

    make_jail-Leased : Keeps Leased (make_jail f vm config)
    unfolding make_jail
    make_jail-Leased s h = ground arith

    make_tap-Leased : Keeps Leased (make_tap f vm config)
    unfolding make_tap
    make_tap-Leased s h = ground arith

    register_agent-Leased : Keeps Leased (register_agent f vm config)
    unfolding register_agent
    register_agent-Leased s h = h

    acquire_ip-Leased : Keeps Leased (acquire_ip f vm config)
    unfolding acquire_ip
    acquire_ip-Leased s h = ground arith

    map_ports-Leased : (pms : List PortMapping) → All (Keeps Leased) (map_ports f vm config pms)
    unfolding map_port
    map_ports-Leased [] = tt
    map_ports-Leased (pm ∷ pms) = (λ s h. ground arith, map_ports-Leased pms)

    storage_stages-Leased : All (Keeps Leased) (storage_stages f vm config)
    storage_stages-Leased = (
      do_undoable-Leased (make_snapshot vm) teardown_storage (λ us. refl),
      (
        do_command-Leased (inject_agent vm),
        (
          do_command-Leased (mkdir_parent vm),
          (
            make_jail-Leased,
            (
              do_command-Leased (chown_root vm),
              (
                do_command-Leased (mkdir_run vm),
                (
                  do_command-Leased (chown_run vm),
                  (
                    do_command-Leased (mkdir_dev vm),
                    (
                      do_command-Leased (chown_dev vm),
                      (
                        do_command-Leased (link_kernel vm),
                        (do_command-Leased (bind_device vm), tt),
                      ),
                    ),
                  ),
                ),
              ),
            ),
          ),
        ),
      ),
    )

    boot_stages-Leased : All (Keeps Leased) (boot_stages f vm config)
    boot_stages-Leased = (
      acquire_ip-Leased,
      (
        make_tap-Leased,
        (
          do_command-Leased (write_config vm),
          (
            do_undoable-Leased (start vm) kill_process (λ us. refl),
            (do_command-Leased (connect vm), (register_agent-Leased, tt)),
          ),
        ),
      ),
    )

    stages-Leased : Keeps Leased (run_stages (stages f vm config))
    stages-Leased = run_stages-Keeps Leased _ (
      prepare_image-Leased,
      append-All Leased (storage_stages f vm config)
          (boot_stages f vm config ++ map_ports f vm config config.port_mappings)
          storage_stages-Leased
          (append-All Leased (boot_stages f vm config) (map_ports f vm config config.port_mappings)
            boot_stages-Leased (map_ports-Leased config.port_mappings)),
    )

  -- What `Spawn` does from the moment that it has an id.
  leased_frame : TenantConfig → Host W → Uids.Pool → ℕ → Frame W
  leased_frame config h q uid = record {
    host = record h { uids = q };
    stack = return_leased uid ∷ [];
    uid = uid;
    ip = [];
    active = [];
  }

  abbrev pub Outcome : Host W × Option FirecrackerWorker → Type 0
  Outcome (h, none) = IsSound (house h others)
  Outcome (h, some w) = IsSound (house h (w.leased_uid ∷ others))

  finish-IsSound :
      (config : TenantConfig) (pool : Uids.Pool) (uid : ℕ) (r : Frame W × Bool)
      → Leased config pool uid r.0
      → IsSound (record { pool = pool; leased = uid ∷ others })
      → Outcome (finish f vm config r)
  unfolding finish
  finish-IsSound config pool uid (s, true) (e, u, i) v =
      subst (λ (x : ℕ). IsSound (house s.host (x ∷ others))) (sym u)
        (subst (λ (x : Uids.Pool). IsSound (record { pool = x; leased = uid ∷ others })) (sym e) v)
  finish-IsSound config pool uid (s, false) (e, u, i) v = unwind-IsSound s.stack s.host (
      subst (λ (x : List ℕ). IsSound (house s.host (x ++ others))) (sym i)
        (subst (λ (x : Uids.Pool). IsSound (record { pool = x; leased = uid ∷ others })) (sym e) v))

  run_leased :
      (config : TenantConfig) (h : Host W) (q : Uids.Pool) (uid : ℕ) (ts : List (Stage W))
      → checkout h.uids ≡ (q, inr uid)
      → run_stages (lease_uid f vm config ∷ ts) (frame_of f vm config h)
        ≡ run_stages ts (leased_frame config h q uid)
  unfolding run_stages lease_uid leased_frame
  run_leased config h q uid ts e = ground arith

  run_exhausted :
      (config : TenantConfig) (h : Host W) (ts : List (Stage W))
      → checkout h.uids ≡ (h.uids, inl exhausted)
      → run_stages (lease_uid f vm config ∷ ts) (frame_of f vm config h)
        ≡ (frame_of f vm config h, false)
  unfolding run_stages lease_uid
  run_exhausted config h ts e = ground arith

  -- Where the pool of user ids was sound with `others` leased, it is sound after `Spawn`: with the
  -- same ids leased if `Spawn` failed, and with the id of its worker besides if it did not.
  pub spawn-IsSound :
      (config : TenantConfig) (h : Host W)
      → IsSound (house h others)
      → Outcome (spawn f vm config h)
  unfolding spawn leased_frame
  spawn-IsSound config h v = elim (checkout-cases h.uids) [
    | inl e ↦
        subst (λ (r : Frame W × Bool). Outcome (finish f vm config r))
          (sym (run_exhausted config h (stages f vm config) e)) (unfold finish unwind in v)
    | inr (q, uid, e) ↦
        subst (λ (r : Frame W × Bool). Outcome (finish f vm config r))
          (sym (run_leased config h q uid (stages f vm config) e))
          (finish-IsSound config q uid _
            (stages-Leased config q uid (leased_frame config h q uid) (refl, refl, refl))
            (lease_taken-IsSound h.uids q uid others e v))
  ]
