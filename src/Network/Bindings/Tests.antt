-- ===== src/Network/Bindings/Tests.antt =====
-- Bindings and interfaces on small inputs.
use herd.Common.{ℕ, ◌≡◌, ◌≤◌, All, refl, inr, List, [], ◌∷◌, none, some, Option, arith}
use herd.Common.Text.{Text, codes, text_eq}
use herd.Common.Split.{split, to_lower}
use herd.Common.Numerals.{parse_uint, value}
use herd.Network.Bindings.Defs.{
  PortBinding, BindingError, udp, Addr, ip_net, ip_addr, ip_of, other, sanitize_network_bindings,
  parse_slashes, parse_ports, set_parts, set_part, put_guest, put_host, put_ip, return_or,
  parse_ipv4, parse_fields, parse_field,
}
use herd.Network.Bindings.Accepted.{IsValid, sanitize_network_bindings-IsValid}
use herd.Network.Bindings.RoundTrip.{print_binding, sanitize-print_binding}

-- 10.0.0.1:8080:80/udp
abbrev full : PortBinding
full = record { ip = 10 ∷ 0 ∷ 0 ∷ 1 ∷ []; host_port = 8080; guest_port = 80; protocol = udp }

full-IsValid : IsValid full
full-IsValid = record {
  host_le = omega arith;
  guest_le = omega arith;
  ip_length = refl;
  ip_bytes = (omega arith, (omega arith, (omega arith, (omega arith, tt))));
  known = inr refl;
}

sanitize-print_binding_example : sanitize_network_bindings (print_binding full) ≡ (full, none)
sanitize-print_binding_example = sanitize-print_binding full full-IsValid

run_full : sanitize_network_bindings (codes "10.0.0.1:8080:80/UDP") ≡ (full, none)
unfolding sanitize_network_bindings to_lower split parse_slashes text_eq parse_ports set_parts
    set_part put_guest put_host put_ip return_or parse_ipv4 parse_fields parse_field parse_uint
    value
run_full = refl

run_short : (sanitize_network_bindings (codes ":80")).0.guest_port ≡ 80
unfolding sanitize_network_bindings to_lower split parse_slashes text_eq parse_ports set_parts
    set_part put_guest put_host put_ip return_or parse_uint value
run_short = refl

run_zero : (sanitize_network_bindings (codes "0.0.0.01::80")).1 ≡ some BindingError.bad_interface
unfolding sanitize_network_bindings to_lower split parse_slashes text_eq parse_ports set_parts
    set_part put_guest put_host put_ip return_or parse_ipv4 parse_fields parse_field parse_uint
    value
run_zero = refl

sanitize_network_bindings-IsValid_example :
    IsValid (sanitize_network_bindings (codes "1:2:3:4/TCP")).0
    × (sanitize_network_bindings (codes "1:2:3:4/tcp")
        ≡ sanitize_network_bindings (codes "1:2:3:4/TCP"))
unfolding to_lower
sanitize_network_bindings-IsValid_example = sanitize_network_bindings-IsValid (codes "1:2:3:4/TCP")

-- An interface with a loopback address, one of IPv6 and 10.0.0.1 in 16 bytes.
abbrev eth_addrs : List Addr
eth_addrs =
    ip_net (127 ∷ 0 ∷ 0 ∷ 1 ∷ [])
    ∷ other
    ∷ ip_addr (0 ∷ 0 ∷ 0 ∷ 0 ∷ 0 ∷ 0 ∷ 0 ∷ 0 ∷ 0 ∷ 0 ∷ 255 ∷ 255 ∷ 10 ∷ 0 ∷ 0 ∷ 1 ∷ [])
    ∷ []

abbrev eth : Text → Option (List Addr)
eth name = some eth_addrs

bytes_of_eth : All (λ (x : Addr). All (λ (b : ℕ). b ≤ 255) (ip_of x)) eth_addrs
bytes_of_eth = ground arith
