-- ===== src/Network/Bindings/Defs.antt =====
-- internal/network/utils.go: `SanitizeNetworkBindings` and `GetInterfaceIP`. Texts are in ASCII, and an
-- address is its list of bytes. Separators: 47 is '/', 58 is ':', 46 is '.'.
use herd.Common.{
  ℕ, zero, suc, ◌+◌, Bool, true, false, ◌||◌, List, [], ◌∷◌, ◌++◌, Option, none, some,
  if◌then◌else◌, ◌==◌, ltb, length,
}
use herd.Common.Text.{Text, codes, text_eq}
use herd.Common.Split.{split, to_lower}
use herd.Common.Numerals.{parse_uint, digits}
use herd.Network.Ipam.Defs.{Address, address_eq}

pub record PortBinding : Type 0 where
  pub ip : Address
  pub host_port : ℕ
  pub guest_port : ℕ
  pub protocol : Text

pub data BindingError : Type 0 where
  many_slashes bad_protocol many_colons bad_guest_port bad_host_port bad_interface : BindingError

-- A field of an address in `netip.ParseAddr`: at most 255, without a leading 0.
abbrev pub leads : Text → Bool
leads [] = false
leads (c ∷ []) = false
leads (c ∷ d ∷ t) = c == 48

unfoldable pub parse_field : Text → Option ℕ
parse_field t = if leads t then none else parse_uint 255 t

unfoldable pub parse_fields : List Text → Option (List ℕ)
parse_fields [] = some []
parse_fields (t ∷ ts) = elim (parse_field t) [
  | none ↦ none
  | some a ↦ elim (parse_fields ts) [ none ↦ none | some as_ ↦ some (a ∷ as_) ]
]

-- `netip.ParseAddr` with the test `Is4`, on a text without ':'.
unfoldable pub parse_ipv4 : Text → Option Address
parse_ipv4 t = let parts = split 46 t in if length parts == 4 then parse_fields parts else none

abbrev pub tcp : Text
tcp = codes "tcp"

abbrev pub udp : Text
udp = codes "udp"

-- What the struct is before anything is parsed.
abbrev pub default_binding : PortBinding
default_binding = record { ip = 0 ∷ 0 ∷ 0 ∷ 0 ∷ []; host_port = 0; guest_port = 0; protocol = tcp }

-- What a part is parsed to, written to its field.
abbrev pub Outcome : Type 0
Outcome = PortBinding × Option BindingError

unfoldable pub put_guest : Option ℕ → PortBinding → Outcome
put_guest none b = (b, some bad_guest_port)
put_guest (some n) b = (record b { guest_port = n }, none)

unfoldable pub put_host : Option ℕ → PortBinding → Outcome
put_host none b = (b, some bad_host_port)
put_host (some n) b = (record b { host_port = n }, none)

unfoldable pub put_ip : Option Address → PortBinding → Outcome
put_ip none b = (b, some bad_interface)
put_ip (some a) b = (record b { ip = a }, none)

-- A round of the loop over the reversed parts.
unfoldable pub set_part : ℕ → Text → PortBinding → Outcome
set_part zero part b = put_guest (parse_uint 65535 part) b
set_part (suc zero) [] b = (b, none)
set_part (suc zero) (c ∷ cs) b = put_host (parse_uint 65535 (c ∷ cs)) b
set_part (suc (suc zero)) [] b = (b, none)
set_part (suc (suc zero)) (c ∷ cs) b = put_ip (parse_ipv4 (c ∷ cs)) b
set_part (suc (suc (suc i))) part b = (b, none)

-- An error returns at once.
unfoldable pub return_or : Outcome → Outcome → Outcome
return_or (b, none) rest = rest
return_or (b, some e) rest = (b, some e)

unfoldable pub set_parts : ℕ → List Text → PortBinding → Outcome
set_parts i [] b = (b, none)
set_parts i (part ∷ parts) b =
    return_or (set_part i part b) (set_parts (i + 1) parts (set_part i part b).0)

abbrev pub reversed : List Text → List Text → List Text
reversed [] acc = acc
reversed (t ∷ ts) acc = reversed ts (t ∷ acc)

unfoldable pub parse_ports : Text → PortBinding → Outcome
parse_ports input b =
    let parts = split 58 input in
    if ltb 3 (length parts) || length parts == 0
    then (b, some many_colons)
    else set_parts 0 (reversed parts []) b

-- The switch on the number of parts at '/'.
unfoldable pub parse_slashes : Text → List Text → Outcome
parse_slashes input (ports ∷ protocol ∷ []) =
    if text_eq tcp protocol || text_eq udp protocol
    then parse_ports ports (record default_binding { protocol = protocol })
    else (default_binding, some bad_protocol)
parse_slashes input (a ∷ b ∷ c ∷ ts) = (default_binding, some many_slashes)
parse_slashes input _ = parse_ports input default_binding

unfoldable pub sanitize_network_bindings : Text → Outcome
sanitize_network_bindings input = let text = to_lower input in parse_slashes text (split 47 text)

-- What `iface.Addrs` returns, by the cases of the type switch; a `net.IP` is nil or its bytes.
pub data Addr : Type 0 where
  ip_net ip_addr : List ℕ → Addr
  other : Addr

abbrev pub ip_of : Addr → List ℕ
ip_of (ip_net ip) = ip
ip_of (ip_addr ip) = ip
ip_of other = []

-- What follows a prefix.
unfoldable pub strip_prefix : List ℕ → List ℕ → Option (List ℕ)
strip_prefix [] xs = some xs
strip_prefix (p ∷ ps) [] = none
strip_prefix (p ∷ ps) (x ∷ xs) = if p == x then strip_prefix ps xs else none

-- The first 12 bytes of an IPv4 address in 16 bytes.
abbrev pub mapped_prefix : List ℕ
mapped_prefix = 0 ∷ 0 ∷ 0 ∷ 0 ∷ 0 ∷ 0 ∷ 0 ∷ 0 ∷ 0 ∷ 0 ∷ 255 ∷ 255 ∷ []

-- `net.IP.To4`; nil is the empty list.
unfoldable pub to_4 : List ℕ → Address
to_4 ip =
    if length ip == 4
    then ip
    else if length ip == 16
    then elim (strip_prefix mapped_prefix ip) [ none ↦ [] | some rest ↦ rest ]
    else []

abbrev pub is_nil : List ℕ → Bool
is_nil [] = true
is_nil (x ∷ xs) = false

-- `net.IP.IsLoopback`: 127.0.0.0/8 or ::1.
unfoldable pub is_loopback : List ℕ → Bool
is_loopback ip = elim (to_4 ip) [
  | [] ↦ address_eq ip (0 ∷ 0 ∷ 0 ∷ 0 ∷ 0 ∷ 0 ∷ 0 ∷ 0 ∷ 0 ∷ 0 ∷ 0 ∷ 0 ∷ 0 ∷ 0 ∷ 0 ∷ 1 ∷ [])
  | a ∷ as_ ↦ a == 127
]

-- `net.IP.String` of four bytes: a field has three digits at most.
unfoldable pub show_ip : Address → Text
show_ip [] = []
show_ip (a ∷ []) = digits 3 a []
show_ip (a ∷ b ∷ as_) = digits 3 a [] ++ 46 ∷ show_ip (b ∷ as_)

-- The loop over the addresses of the interface.
unfoldable pub first_ipv4 : List Addr → Option Text
first_ipv4 [] = none
first_ipv4 (addr ∷ addrs) =
    let rest = first_ipv4 addrs in
    let ip = ip_of addr in
    if is_nil ip || is_loopback ip
    then rest
    else elim (to_4 ip) [ [] ↦ rest | a ∷ as_ ↦ some (show_ip (a ∷ as_)) ]

-- `GetInterfaceIP`, where `addrs` is what `InterfaceByName` and then `Addrs` answer, if neither
-- fails.
unfoldable pub get_interface_ip : (Text → Option (List Addr)) → Text → Option Text
get_interface_ip addrs name = elim (addrs name) [ none ↦ none | some as_ ↦ first_ipv4 as_ ]
