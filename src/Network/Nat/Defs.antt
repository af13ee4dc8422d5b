-- ===== src/Network/Nat/Defs.antt =====
-- internal/network/nat.go: the commands that its functions run. `runCmd` and the calls of netlink are
-- the machine's `run`; the errors of a function are a flag, true for the nil error.
use herd.Common.{ℕ, ◌==◌, not, Bool, true, false, List, [], ◌∷◌, Option, none, some, if◌then◌else◌}
use herd.Network.Ports.Defs.{Protocol, blank, tcp, Interface, unset, wildcard, named}
use herd.Host.Machine.{
  Match, local, address, device, prerouting, output, forward, masquerade_out, forward_out,
  masquerade_local, established, drop_private, Command, ip_forward, route_localnet, append, remove,
  link_add, link_by_name, addr_add, link_set_up, link_del, Answer, done, Machine,
}

abbrev pub is_done : Answer → Bool
is_done done = true
is_done _ = false

-- An empty protocol means tcp.
abbrev pub or_tcp : Protocol → Protocol
or_tcp blank = tcp
or_tcp p = p

-- A route of netlink.RouteList: whether it has no destination or 0.0.0.0, and its link.
pub record Route : Type 0 where
  pub is_default : Bool
  pub link_index : ℕ

-- The loop of `getDefaultInterface`, with what netlink.LinkByIndex finds.
unfoldable pub default_interface : (ℕ → Option ℕ) → List Route → Option ℕ
default_interface link_by_index [] = none
default_interface link_by_index (r ∷ routes) =
    let rest = default_interface link_by_index routes in
    if r.is_default then (if r.link_index == 0 then rest else link_by_index r.link_index) else rest

-- What net.ParseIP tells of an interface's string, and the string "127.0.0.1".
pub record Names : Type 0 where
  pub is_ip : ℕ → Bool
  pub localhost : ℕ

module _ (names : Names) where
  abbrev pub match_of : Interface → Match
  match_of unset = local
  match_of wildcard = local
  match_of (named n) = if names.is_ip n then address n else device n

  abbrev pub has_output : Interface → Bool
  has_output unset = true
  has_output wildcard = true
  has_output (named n) = n == names.localhost

-- `runCmd` one after the other until one fails.
module _ {W : Type 0} (m : Machine W) where
  unfoldable pub run_all : List Command → W → W × Bool
  run_all [] w = (w, true)
  run_all (c ∷ cs) w =
      let (w', a) = m.run c w in let rest = run_all cs w' in if is_done a then rest else (w', false)

  -- `_ = runCmd`: the errors are ignored.
  unfoldable pub run_each : List Command → W → W
  run_each [] w = w
  run_each (c ∷ cs) w = run_each cs (m.run c w).0

  -- `Bootstrap` on what `getDefaultInterface` answered.
  unfoldable pub bootstrap : Option ℕ → W → W × Bool
  bootstrap none w = (w, false)
  bootstrap (some iface) w =
      run_all
        (ip_forward
          ∷ route_localnet
          ∷ append (masquerade_out iface)
          ∷ append established
          ∷ append masquerade_local
          ∷ append (drop_private 0)
          ∷ append (drop_private 1)
          ∷ append (drop_private 2)
          ∷ append (forward_out iface)
          ∷ [])
        w

  -- `Teardown`
  unfoldable pub nat_teardown : Option ℕ → W → W × Bool
  nat_teardown none w = (w, false)
  nat_teardown (some iface) w = (
    run_each
        (remove (masquerade_out iface)
          ∷ remove masquerade_local
          ∷ remove established
          ∷ remove (drop_private 0)
          ∷ remove (drop_private 1)
          ∷ remove (drop_private 2)
          ∷ remove (forward_out iface)
          ∷ [])
        w,
    true,
  )

  -- `CreatePointToPointTap` (and `CreateTap`, which differs in the address that it adds); `valid` is
  -- whether the addresses parse.
  unfoldable pub create_tap : Bool → ℕ → W → W × Bool
  create_tap valid t w =
      let (w1, added) = m.run (link_add t) w in
      let (w2, found) = m.run (link_by_name t) w1 in
      let (w3, addressed) = m.run (addr_add t) w2 in
      let (w4, up) = m.run (link_set_up t) w3 in
      if not (is_done added)
      then (w1, false)
      else if not (is_done found)
      then (w2, false)
      else if not valid
      then ((m.run (link_del t) w2).0, false)
      else if not (is_done addressed)
      then ((m.run (link_del t) w3).0, false)
      else if not (is_done up)
      then ((m.run (link_del t) w4).0, false)
      else (w4, true)

  -- `DeleteTap`
  unfoldable pub delete_tap : ℕ → W → W × Bool
  delete_tap t w =
      let (w1, found) = m.run (link_by_name t) w in
      let (w2, deleted) = m.run (link_del t) w1 in
      if is_done found then (w2, is_done deleted) else (w1, true)

  module _ (names : Names) where
    -- `AddPortMapping`: interface, host port, guest address and port, protocol.
    unfoldable pub add_port_mapping : Interface → ℕ → ℕ → ℕ → Protocol → W → W × Bool
    add_port_mapping iface port guest guest_port protocol w =
        let p = or_tcp protocol in
        let dnat = prerouting p (match_of names iface) port guest guest_port in
        let out = output p port guest guest_port in
        let (w1, added) = m.run (append dnat) w in
        let w2 = if has_output names iface then (m.run (append out) w1).0 else w1 in
        let (w3, forwarded) = m.run (append (forward p guest guest_port)) w2 in
        if not (is_done added)
        then (w1, false)
        else if is_done forwarded
        then (w3, true)
        else (run_each (remove dnat ∷ remove out ∷ []) w3, false)

    -- `RemovePortMapping`
    unfoldable pub remove_port_mapping : Interface → ℕ → ℕ → ℕ → Protocol → W → W
    remove_port_mapping iface port guest guest_port protocol w =
        let p = or_tcp protocol in
        let w1 = (m.run (remove (prerouting p (match_of names iface) port guest guest_port)) w).0 in
        let w2 =
          if has_output names iface
          then (m.run (remove (output p port guest guest_port)) w1).0
          else w1 in
        (m.run (remove (forward p guest guest_port)) w2).0
