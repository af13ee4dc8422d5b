-- ===== src/Network/Bindings/Accepted.antt =====
-- What a binding that is accepted looks like.
use herd.Common.{
  ℕ, zero, suc, ◌+◌, ◌≤◌, ◌≡◌, ◌⊎◌, inl, inr, refl, sym, Bool-cases, Option-cases, List, [], ◌∷◌,
  Option, none, some, ◌==◌, length, All, arith, ◌||◌, ltb,
}
use herd.Common.Text.{Text, text_eq, text_eq_iff}
use herd.Common.Split.{split, to_lower, to_lower_twice}
use herd.Common.Numerals.{parse_uint, parse_uint_le}
use herd.Network.Ipam.Defs.{Address}
use herd.Network.Bindings.Defs.{
  PortBinding, parse_field, parse_fields, parse_ipv4, leads, tcp, udp, default_binding, put_guest,
  put_host, put_ip, return_or, Outcome, set_part, set_parts, reversed, parse_ports, parse_slashes,
  sanitize_network_bindings,
}

-- Ports of 16 bits, an IPv4 address and one of two protocols.
pub record IsValid (b : PortBinding) : Type 0 where
  pub host_le : b.host_port ≤ 65535
  pub guest_le : b.guest_port ≤ 65535
  pub ip_length : length b.ip ≡ 4
  pub ip_bytes : All (λ (a : ℕ). a ≤ 255) b.ip
  pub known : (b.protocol ≡ tcp) ⊎ (b.protocol ≡ udp)

parse_field_le : (t : Text) (a : ℕ) → parse_field t ≡ some a → a ≤ 255
unfolding parse_field
parse_field_le t a h = elim (Bool-cases (leads t)) [
  | inl e ↦ ground arith
  | inr e ↦ ground (arith, parse_uint_le 255 a t)
]

parse_fields-bytes :
    (ts : List Text) (as_ : List ℕ)
    → parse_fields ts ≡ some as_
    → (length as_ ≡ length ts) × All (λ (a : ℕ). a ≤ 255) as_
unfolding parse_fields
parse_fields-bytes [] [] h = (refl, tt)
parse_fields-bytes [] (a ∷ as_) h = cc
parse_fields-bytes (t ∷ ts) as_ h = elim (Option-cases (parse_field t)) [
  | inl e ↦ ground arith
  | inr (a, e) ↦ elim (Option-cases (parse_fields ts)) [
    | inl d ↦ ground arith
    | inr (rest, d) ↦ ground (arith, parse_field_le t a e, parse_fields-bytes ts rest d)
  ]
]

parse_ipv4-bytes :
    (t : Text) (ip : Address)
    → parse_ipv4 t ≡ some ip
    → (length ip ≡ 4) × All (λ (a : ℕ). a ≤ 255) ip
unfolding parse_ipv4
parse_ipv4-bytes t ip h = ground (arith, parse_fields-bytes (split 46 t) ip)

put_guest-IsValid :
    (o : Option ℕ) (b : PortBinding)
    → ((n : ℕ) → o ≡ some n → n ≤ 65535)
    → IsValid b
    → IsValid (put_guest o b).0
unfolding put_guest
put_guest-IsValid none b le v = v
put_guest-IsValid (some n) b le v = record {
  host_le = v.host_le;
  guest_le = le n refl;
  ip_length = v.ip_length;
  ip_bytes = v.ip_bytes;
  known = v.known;
}

put_host-IsValid :
    (o : Option ℕ) (b : PortBinding)
    → ((n : ℕ) → o ≡ some n → n ≤ 65535)
    → IsValid b
    → IsValid (put_host o b).0
unfolding put_host
put_host-IsValid none b le v = v
put_host-IsValid (some n) b le v = record {
  host_le = le n refl;
  guest_le = v.guest_le;
  ip_length = v.ip_length;
  ip_bytes = v.ip_bytes;
  known = v.known;
}

put_ip-IsValid :
    (o : Option Address) (b : PortBinding)
    → ((a : Address) → o ≡ some a → (length a ≡ 4) × All (λ (x : ℕ). x ≤ 255) a)
    → IsValid b
    → IsValid (put_ip o b).0
unfolding put_ip
put_ip-IsValid none b le v = v
put_ip-IsValid (some a) b le v = record {
  host_le = v.host_le;
  guest_le = v.guest_le;
  ip_length = (le a refl).0;
  ip_bytes = (le a refl).1;
  known = v.known;
}

set_part-IsValid : (i : ℕ) (t : Text) (b : PortBinding) → IsValid b → IsValid (set_part i t b).0
unfolding set_part
set_part-IsValid zero t b v =
    put_guest-IsValid (parse_uint 65535 t) b (λ n e. parse_uint_le 65535 n t e) v
set_part-IsValid (suc zero) [] b v = v
set_part-IsValid (suc zero) (c ∷ cs) b v =
    put_host-IsValid (parse_uint 65535 (c ∷ cs)) b (λ n e. parse_uint_le 65535 n (c ∷ cs) e) v
set_part-IsValid (suc (suc zero)) [] b v = v
set_part-IsValid (suc (suc zero)) (c ∷ cs) b v =
    put_ip-IsValid (parse_ipv4 (c ∷ cs)) b (λ a e. parse_ipv4-bytes (c ∷ cs) a e) v
set_part-IsValid (suc (suc (suc i))) t b v = v

return_or-IsValid : (r rest : Outcome) → IsValid r.0 → IsValid rest.0 → IsValid (return_or r rest).0
unfolding return_or
return_or-IsValid (b, none) rest v w = w
return_or-IsValid (b, some e) rest v w = v

set_parts-IsValid :
    (i : ℕ) (ts : List Text) (b : PortBinding) → IsValid b → IsValid (set_parts i ts b).0
unfolding set_parts
set_parts-IsValid i [] b v = v
set_parts-IsValid i (t ∷ ts) b v =
    let here = set_part-IsValid i t b v in
    return_or-IsValid (set_part i t b) _ here (set_parts-IsValid (i + 1) ts (set_part i t b).0 here)

default-IsValid : IsValid default_binding
default-IsValid = record {
  host_le = omega arith;
  guest_le = omega arith;
  ip_length = refl;
  ip_bytes = (omega arith, (omega arith, (omega arith, (omega arith, tt))));
  known = inl refl;
}

with_protocol-IsValid :
    (p : Text) → (p ≡ tcp) ⊎ (p ≡ udp) → IsValid (record default_binding { protocol = p })
with_protocol-IsValid p k =
    let v = default-IsValid in
    record {
      host_le = v.host_le;
      guest_le = v.guest_le;
      ip_length = v.ip_length;
      ip_bytes = v.ip_bytes;
      known = k;
    }

parse_ports-IsValid : (t : Text) (b : PortBinding) → IsValid b → IsValid (parse_ports t b).0
unfolding parse_ports
parse_ports-IsValid t b v =
    elim (Bool-cases (ltb 3 (length (split 58 t)) || length (split 58 t) == 0)) [
      | inl e ↦ rw e v
      | inr e ↦ rw e (set_parts-IsValid 0 (reversed (split 58 t) []) b v)
    ]

parse_slashes-IsValid : (t : Text) (ts : List Text) → IsValid (parse_slashes t ts).0
unfolding parse_slashes
parse_slashes-IsValid t [] = parse_ports-IsValid t default_binding default-IsValid
parse_slashes-IsValid t (a ∷ []) = parse_ports-IsValid t default_binding default-IsValid
parse_slashes-IsValid t (a ∷ b ∷ c ∷ ts) = default-IsValid
parse_slashes-IsValid t (a ∷ p ∷ []) = elim (Bool-cases (text_eq tcp p)) [
  | inl e ↦
      rw e (parse_ports-IsValid a _ (with_protocol-IsValid p (inl (sym ((text_eq_iff tcp p).0 e)))))
  | inr e ↦ elim (Bool-cases (text_eq udp p)) [
    | inl d ↦
        rw (e, d)
          (parse_ports-IsValid a _ (with_protocol-IsValid p (inr (sym ((text_eq_iff udp p).0 d)))))
    | inr d ↦ rw (e, d) default-IsValid
  ]
]

-- Whatever the input is, the binding that `SanitizeNetworkBindings` returns, also the one beside an
-- error, has an IPv4 address of four bytes, ports of 16 bits and the protocol tcp or udp; and the
-- case of the letters makes no difference.
pub sanitize_network_bindings-IsValid :
    (input : Text)
    → IsValid (sanitize_network_bindings input).0
      × (sanitize_network_bindings (to_lower input) ≡ sanitize_network_bindings input)
unfolding sanitize_network_bindings
sanitize_network_bindings-IsValid input =
    (parse_slashes-IsValid (to_lower input) (split 47 (to_lower input)), rw (to_lower_twice input))
