-- ===== src/Guest/Network.antt =====
-- cmd/herd-guest-agent/main.go: `configureNetworking`. `net.ParseIP` is an argument.
use herd.Common.{List, [], ◌∷◌, Option, none, some, if◌then◌else◌, ◌||◌}
use herd.Common.Text.{Text, codes, is_empty}
use herd.Common.Split.{has_prefix, trim_prefix}
use herd.Common.Fields.{fields}
use herd.Network.Ipam.Defs.{Address}
use herd.Guest.Kernel.{
  Call, mkdir_all, remove, link_up, addr_add, route_add, write_file, is_done, Kernel,
}

pub record Params : Type 0 where
  pub ip : Text
  pub gw : Text

-- The loop over the words of the kernel's command line; a later word wins.
unfoldable pub read_params : List Text → Params → Params
read_params [] p = p
read_params (word ∷ words) p = read_params words (
    if has_prefix (codes "herd_ip=") word
    then record p { ip = trim_prefix (codes "herd_ip=") word }
    else if has_prefix (codes "herd_gw=") word
    then record p { gw = trim_prefix (codes "herd_gw=") word }
    else p)

pub data NetError : Type 0 where
  no_loopback loopback_down no_cmdline missing_params bad_params : NetError
  no_address eth0_down no_route no_resolv no_container_resolv : NetError

-- Both parameters are there, and are addresses.
unfoldable pub check_params :
    (Text → Option Address) → Params → (Option NetError) × Address × Address
check_params parse_ip p =
    if is_empty p.ip || is_empty p.gw then (some missing_params, [], []) else elim (parse_ip p.ip) [
      | none ↦ (some bad_params, [], [])
      | some ip ↦ elim (parse_ip p.gw) [
        | none ↦ (some bad_params, [], [])
        | some gw ↦ (none, ip, gw)
      ]
    ]

-- The addresses that a command line gives.
unfoldable pub network_params :
    (Text → Option Address) → Text → (Option NetError) × Address × Address
network_params parse_ip cmdline =
    check_params parse_ip (read_params (fields cmdline) (record { ip = []; gw = [] }))

abbrev dns_config : Text
dns_config = codes "nameserver 8.8.8.8\nnameserver 1.1.1.1\n"

module _ {W : Type 0} (k : Kernel W) (parse_ip : Text → Option Address) where
  abbrev pub Outcome : Type 0
  Outcome = W × Option NetError

  -- A call that has to succeed, and what comes after it.
  unfoldable pub must : Call → NetError → (W → Outcome) → W → Outcome
  must c e next w =
      let (w', a) = k.run c w in let rest = next w' in if is_done a then rest else (w', some e)

  abbrev pub run_quietly : Call → W → W
  run_quietly c w = (k.run c w).0

  unfoldable pub write_dns : W → Outcome
  write_dns w =
      must (write_file (codes "/etc/resolv.conf") dns_config) no_resolv
        (λ w1.
          must (write_file (codes "/mnt/container/etc/resolv.conf") dns_config) no_container_resolv
            (λ w2. (w2, none))
            (run_quietly (remove (codes "/mnt/container/etc/resolv.conf"))
              (run_quietly (mkdir_all (codes "/mnt/container/etc")) w1)))
        (run_quietly (mkdir_all (codes "/etc")) w)

  -- The address with the gateway as its peer, the interface, the route and the name servers.
  unfoldable pub configure_eth0 : Address → Address → W → Outcome
  configure_eth0 ip gw w =
      must (addr_add (codes "eth0") ip gw) no_address
        (λ w1.
          must (link_up (codes "eth0")) eth0_down
            (λ w2. must (route_add (codes "eth0") gw) no_route write_dns w2) w1)
        w

  unfoldable pub configure_primary : W → Outcome
  configure_primary w =
      if k.has_link (codes "eth0") w
      then elim (k.cmdline w) [
        | none ↦ (w, some no_cmdline)
        | some cmdline ↦
            let (e, ip, gw) = network_params parse_ip cmdline in
            elim e [ none ↦ configure_eth0 ip gw w | some x ↦ (w, some x) ]
      ]
      else (w, none)

  unfoldable pub configure_networking : W → Outcome
  configure_networking w =
      if k.has_link (codes "lo") w
      then must (link_up (codes "lo")) loopback_down configure_primary w
      else (w, some no_loopback)
