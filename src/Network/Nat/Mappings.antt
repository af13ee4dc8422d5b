-- ===== src/Network/Nat/Mappings.antt =====
-- The rules of a port mapping.
use herd.Common.{ℕ, ◌+◌, ◌-◌, ◌≡◌, ◌∙◌, ◌≤◌, true, false, ◌⊎◌, if◌then◌else◌, arith}
use herd.Network.Ports.Defs.{Protocol, Interface}
use herd.Host.Machine.{
  Rule, prerouting, output, forward, rule, same, same_eq, Resource, append, remove, after, Machine,
  Removes, taken_count,
}
use herd.Network.Nat.Defs.{
  Names, or_tcp, match_of, has_output, is_done, run_each, add_port_mapping, remove_port_mapping,
}

module _ (names : Names) where
  -- How many of a resource a port mapping adds at most.
  abbrev pub mapped : Interface → ℕ → ℕ → ℕ → Protocol → Resource → ℕ
  mapped iface port guest guest_port protocol q =
      same (rule (prerouting (or_tcp protocol) (match_of names iface) port guest guest_port)) q
      + (if has_output names iface
          then same (rule (output (or_tcp protocol) port guest guest_port)) q
          else 0)
      + same (rule (forward (or_tcp protocol) guest guest_port)) q

module _ {W : Type 0} (m : Machine W) (ok : Removes m) where
  pub append_count :
      (r : Rule) (q : Resource) (w : W)
      → m.count q (m.run (append r) w).0
        ≡ m.count q w + (if is_done (m.run (append r) w).1 then same (rule r) q else 0)
  unfolding after
  append_count r q w = ground (arith, m.run-count (append r) q w)

  pub remove_count :
      (r : Rule) (q : Resource) (w : W)
      → m.count q (m.run (remove r) w).0 ≡ m.count q w - same (rule r) q
  unfolding after
  remove_count r q w =
      m.run-count (remove r) q w ∙ taken_count m (m.run (remove r) w).1 (rule r) q w (ok.rules r w)

  none_left : (r q : Resource) (w : W) → m.count r w ≡ 0 → (same r q ≡ 0) ⊎ (m.count q w ≡ 0)
  none_left r q w h = ground (arith, same_eq r q)

  module _ (names : Names) where
    -- Where no rule of the OUTPUT chain led to the guest from that host port, and no removal of a
    -- rule that is there fails, removing a port mapping that was added leaves as many of every rule
    -- and other resource as there were before.
    pub remove-add_port_mapping :
        (iface : Interface) (port guest guest_port : ℕ) (protocol : Protocol) (q : Resource) (w : W)
        → m.count (rule (output (or_tcp protocol) port guest guest_port)) w ≡ 0
        → (add_port_mapping m names iface port guest guest_port protocol w).1 ≡ true
        → m.count q (
            remove_port_mapping m names iface port guest guest_port protocol
              (add_port_mapping m names iface port guest guest_port protocol w).0)
          ≡ m.count q w
    unfolding add_port_mapping remove_port_mapping run_each
    remove-add_port_mapping iface port guest guest_port protocol q w h added =
        let p = or_tcp protocol in
        let dnat = prerouting p (match_of names iface) port guest guest_port in
        let out = output p port guest guest_port in
        let fwd = forward p guest guest_port in
        let w1 = (m.run (append dnat) w).0 in
        let w2 = if has_output names iface then (m.run (append out) w1).0 else w1 in
        let w3 = (m.run (append fwd) w2).0 in
        let w4 = (m.run (remove dnat) w3).0 in
        let w5 = if has_output names iface then (m.run (remove out) w4).0 else w4 in
        ground (
          arith,
          none_left (rule out) q w h,
          append_count dnat q w,
          append_count out q w1,
          append_count fwd q w2,
          remove_count dnat q w3,
          remove_count out q w4,
          remove_count fwd q w5,
        )

    -- Where no such rule was there and no removal fails, adding a port mapping that fails leaves as
    -- many of every resource as there were before.
    pub add_port_mapping_failed :
        (iface : Interface) (port guest guest_port : ℕ) (protocol : Protocol) (q : Resource) (w : W)
        → m.count (rule (output (or_tcp protocol) port guest guest_port)) w ≡ 0
        → (add_port_mapping m names iface port guest guest_port protocol w).1 ≡ false
        → m.count q (add_port_mapping m names iface port guest guest_port protocol w).0
          ≡ m.count q w
    unfolding add_port_mapping run_each
    add_port_mapping_failed iface port guest guest_port protocol q w h failed =
        let p = or_tcp protocol in
        let dnat = prerouting p (match_of names iface) port guest guest_port in
        let out = output p port guest guest_port in
        let fwd = forward p guest guest_port in
        let w1 = (m.run (append dnat) w).0 in
        let w2 = if has_output names iface then (m.run (append out) w1).0 else w1 in
        let w3 = (m.run (append fwd) w2).0 in
        let w4 = (m.run (remove dnat) w3).0 in
        ground (
          arith,
          none_left (rule out) q w h,
          append_count dnat q w,
          append_count out q w1,
          append_count fwd q w2,
          remove_count dnat q w3,
          remove_count out q w4,
        )

    pub add_port_mapping_le :
        (iface : Interface) (port guest guest_port : ℕ) (protocol : Protocol) (q : Resource) (w : W)
        → m.count q (add_port_mapping m names iface port guest guest_port protocol w).0
          ≤ m.count q w
            + (if (add_port_mapping m names iface port guest guest_port protocol w).1
                then mapped names iface port guest guest_port protocol q
                else 0)
    unfolding add_port_mapping run_each
    add_port_mapping_le iface port guest guest_port protocol q w =
        let p = or_tcp protocol in
        let dnat = prerouting p (match_of names iface) port guest guest_port in
        let out = output p port guest guest_port in
        let fwd = forward p guest guest_port in
        let w1 = (m.run (append dnat) w).0 in
        let w2 = if has_output names iface then (m.run (append out) w1).0 else w1 in
        let w3 = (m.run (append fwd) w2).0 in
        let w4 = (m.run (remove dnat) w3).0 in
        ground (
          arith,
          append_count dnat q w,
          append_count out q w1,
          append_count fwd q w2,
          remove_count dnat q w3,
          remove_count out q w4,
        )

    pub remove_port_mapping_count :
        (iface : Interface) (port guest guest_port : ℕ) (protocol : Protocol) (q : Resource) (w : W)
        → m.count q (remove_port_mapping m names iface port guest guest_port protocol w)
          ≡ m.count q w - mapped names iface port guest guest_port protocol q
    unfolding remove_port_mapping
    remove_port_mapping_count iface port guest guest_port protocol q w =
        let p = or_tcp protocol in
        let dnat = prerouting p (match_of names iface) port guest guest_port in
        let out = output p port guest guest_port in
        let w1 = (m.run (remove dnat) w).0 in
        let w2 = if has_output names iface then (m.run (remove out) w1).0 else w1 in
        ground (
          arith,
          remove_count dnat q w,
          remove_count out q w1,
          remove_count (forward p guest guest_port) q w2,
        )
