-- ===== src/Firecracker/Close.antt =====
-- What `Close` gives back.
use herd.Common.{
  ℕ, ◌-◌, ◌≡◌, ◌≤◌, refl, Bool, false, Bool-cases, inl, inr, List, [], ◌∷◌, none, if◌then◌else◌,
  ◌==◌, ◌||◌, arith, lookup, lookup-delete,
}
use herd.Network.Ports.Defs as Ports
use herd.Network.Ipam.Defs.{Address, address_eq, is_used}
use herd.Network.Ipam.InUse.{is_used-release}
use herd.Tenant.{PortMapping}
use herd.Host.Machine.{Resource, Removes}
use herd.Firecracker.Defs.{
  Host, Factory, Undo, return_leased, release_port, teardown_storage, remove_jail, drop_tap,
  kill_process, cancel_context, release_ip, remove_mapping, FirecrackerWorker, perform, unwind,
  close_mappings, close,
}
use herd.Firecracker.Unwind.{pending, unwind_le}

abbrev pub has_port : ℕ → List PortMapping → Bool
has_port p [] = false
has_port p (pm ∷ pms) = pm.host_port == p || has_port p pms

module _ {W : Type 0} (f : Factory W) where
  close_mappings-in_use :
      (p : ℕ) (ip : Address) (pms : List PortMapping) (h : Host W)
      → (lookup p (close_mappings f ip pms h).ports.in_use
          ≡ (if has_port p pms then none else lookup p h.ports.in_use))
        × ((close_mappings f ip pms h).ipam ≡ h.ipam)
  unfolding close_mappings perform Ports.release
  close_mappings-in_use p ip [] h = (refl, refl)
  close_mappings-in_use p ip (pm ∷ pms) h = ground (
    arith,
    lookup-delete pm.host_port p h.ports.in_use,
    close_mappings-in_use p ip pms (
        perform f 0 (release_port pm.host_port) (
          perform f 0 (remove_mapping pm.host_interface pm.host_port ip pm.guest_port pm.protocol)
            h)),
  )

  -- The entries of an undo stack that do what `Close` does to the port mappings.
  abbrev pub mapping_entries : Address → List PortMapping → List Undo
  mapping_entries ip [] = []
  mapping_entries ip (pm ∷ pms) =
      remove_mapping pm.host_interface pm.host_port ip pm.guest_port pm.protocol
      ∷ release_port pm.host_port
      ∷ mapping_entries ip pms

  close_mappings-unwind :
      (vm : ℕ) (ip : Address) (pms : List PortMapping) (h : Host W)
      → close_mappings f ip pms h ≡ unwind f vm (mapping_entries ip pms) h
  unfolding close_mappings unwind perform
  close_mappings-unwind vm ip [] h = refl
  close_mappings-unwind vm ip (pm ∷ pms) h = close_mappings-unwind vm ip pms (
      perform f vm (release_port pm.host_port) (
        perform f vm (remove_mapping pm.host_interface pm.host_port ip pm.guest_port pm.protocol)
          h))

  -- The entries of an undo stack that do what `Close` does.
  abbrev pub entries : FirecrackerWorker → List Undo
  entries w =
      cancel_context
      ∷ kill_process
      ∷ remove_jail
      ∷ drop_tap
      ∷ release_ip w.guest_ip
      ∷ teardown_storage
      ∷ (if w.leased_uid == 0
          then mapping_entries w.guest_ip w.port_mappings
          else return_leased w.leased_uid ∷ mapping_entries w.guest_ip w.port_mappings)

  -- `Close` up to the port mappings.
  abbrev closed : FirecrackerWorker → Host W → Host W
  closed w h =
      unwind f w.id
        (cancel_context
          ∷ kill_process
          ∷ remove_jail
          ∷ drop_tap
          ∷ release_ip w.guest_ip
          ∷ teardown_storage
          ∷ (if w.leased_uid == 0 then [] else return_leased w.leased_uid ∷ []))
        h

  close_unwinds : (w : FirecrackerWorker) (h : Host W) → close f w h ≡ unwind f w.id (entries w) h
  unfolding close unwind perform
  close_unwinds w h = elim (Bool-cases (w.leased_uid == 0)) [
    | inl e ↦ rw (e, close_mappings-unwind w.id w.guest_ip w.port_mappings _)
    | inr e ↦ rw (e, close_mappings-unwind w.id w.guest_ip w.port_mappings _)
  ]

  -- `Close` of a worker does what the rollback of `Spawn` would do with a stack that has an entry
  -- for each thing that the worker holds; so, where no removal of what is there fails, it takes
  -- away, as far as they are there, its process, jail, interface, snapshot and the rules of all its
  -- port mappings.
  pub close-unwind :
      Removes f.machine
      → (w : FirecrackerWorker) (q : Resource) (h : Host W)
      → (close f w h ≡ unwind f w.id (entries w) h)
        × (f.machine.count q (close f w h).world
            ≤ f.machine.count q h.world - pending f w.id q (entries w))
  close-unwind ok w q h =
      let same_host = close_unwinds w h in
      (same_host, ground (arith, same_host, unwind_le f w.id q ok (entries w) h))

  -- After `Close` no port of the worker's mappings has an owner and its guest address is unused; every
  -- other port and address is as it was.
  pub close-in_use :
      (w : FirecrackerWorker) (p : ℕ) (a : Address) (h : Host W)
      → (lookup p (close f w h).ports.in_use
          ≡ (if has_port p w.port_mappings then none else lookup p h.ports.in_use))
        × (is_used a (close f w h).ipam.used
            ≡ (if address_eq w.guest_ip a then false else is_used a h.ipam.used))
  unfolding close unwind perform
  close-in_use w p a h = ground (
    arith,
    close_mappings-in_use p w.guest_ip w.port_mappings (closed w h),
    is_used-release h.ipam w.guest_ip a,
  )
