-- ===== src/Firecracker/Unwind.antt =====
-- How much the undo stack of `Spawn` takes away.
use herd.Common.{ℕ, zero, suc, ◌+◌, ◌-◌, ◌*◌, ◌≡◌, ◌≤◌, ◌⊎◌, inl, inr, refl, List, [], ◌∷◌, arith}
use herd.Network.Ports.Defs.{allocate}
use herd.Network.Ports.Defs as Ports
use herd.Host.Machine.{
  Resource, tap, snapshot, jail, process, teardown, remove_all, kill, close_connection, cancel,
  after, same, same_le, Removes, gone_count,
}
use herd.Network.Nat.Mappings.{mapped, remove_port_mapping_count}
use herd.Network.Nat.Taps.{delete_tap-count}
use herd.Firecracker.Defs.{
  Host, Factory, Undo, return_leased, release_port, teardown_storage, remove_jail, drop_tap,
  kill_process, close_conn, cancel_context, release_ip, remove_mapping, perform, unwind,
}

pub granted_or_refused :
    (a : Ports.Answer)
    → ((port : ℕ) × (a ≡ Ports.granted port)) ⊎ ((x : Ports.Error) × (a ≡ Ports.refused x))
granted_or_refused (Ports.granted port) = inl (port, refl)
granted_or_refused (Ports.refused x) = inr (x, refl)

module _ {W : Type 0} (f : Factory W) (vm : ℕ) (q : Resource) where
  abbrev pub amount : Host W → ℕ
  amount h = f.machine.count q h.world

  -- How many of the resource an entry of the undo stack takes away, if they are there.
  abbrev pub weight : Undo → ℕ
  weight teardown_storage = same (snapshot vm) q
  weight remove_jail = same (jail vm) q
  weight drop_tap = same (tap (f.tap_name vm)) q
  weight kill_process = same (process vm) q
  weight (remove_mapping iface port ip guest_port protocol) =
      mapped f.names iface port (f.text ip) guest_port protocol q
  weight _ = 0

  abbrev pub pending : List Undo → ℕ
  pending [] = 0
  pending (u ∷ us) = weight u + pending us

  gone_le : (n s : ℕ) → s ≤ 1 → n - n * s ≤ n - s
  gone_le n zero h = omega arith
  gone_le n (suc zero) h = omega arith
  gone_le n (suc (suc s)) h = absurd (omega arith)

  module _ (ok : Removes f.machine) where
    perform_le : (u : Undo) (h : Host W) → amount (perform f vm u h) ≤ amount h - weight u
    unfolding perform after
    perform_le (return_leased uid) h = omega arith
    perform_le (release_port port) h = omega arith
    perform_le teardown_storage h = ground (
      arith,
      f.machine.run-count (teardown vm) q h.world,
      gone_count f.machine (f.machine.run (teardown vm) h.world).1 (snapshot vm) q h.world
          (ok.snapshots vm h.world),
      gone_le (amount h) _ (same_le (snapshot vm) q),
    )
    perform_le remove_jail h = ground (
      arith,
      f.machine.run-count (remove_all vm) q h.world,
      gone_count f.machine (f.machine.run (remove_all vm) h.world).1 (jail vm) q h.world
          (ok.jails vm h.world),
      gone_le (amount h) _ (same_le (jail vm) q),
    )
    perform_le drop_tap h = ground (
      arith,
      delete_tap-count f.machine ok (f.tap_name vm) q h.world,
      gone_le (amount h) _ (same_le (tap (f.tap_name vm)) q),
    )
    perform_le kill_process h = ground (
      arith,
      f.machine.run-count (kill vm) q h.world,
      gone_count f.machine (f.machine.run (kill vm) h.world).1 (process vm) q h.world
          (ok.processes vm h.world),
      gone_le (amount h) _ (same_le (process vm) q),
    )
    perform_le close_conn h = ground (arith, f.machine.run-count (close_connection vm) q h.world)
    perform_le cancel_context h = ground (arith, f.machine.run-count (cancel vm) q h.world)
    perform_le (release_ip ip) h = omega arith
    perform_le (remove_mapping iface port ip guest_port protocol) h = ground (
      arith,
      remove_port_mapping_count f.machine ok f.names iface port (f.text ip) guest_port protocol q
          h.world,
    )

    pub unwind_le :
        (us : List Undo) (h : Host W) → amount (unwind f vm us h) ≤ amount h - pending us
    unfolding unwind
    unwind_le [] h = omega arith
    unwind_le (u ∷ us) h = omega (arith, perform_le u h, unwind_le us (perform f vm u h))
