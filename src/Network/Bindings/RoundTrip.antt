-- ===== src/Network/Bindings/RoundTrip.antt =====
-- That a binding which is printed in full is read back.
use herd.Common.{
  ℕ, ◌≤◌, ◌≡◌, ◌⊎◌, inl, inr, refl, sym, subst, true, false, List, [], ◌∷◌, ◌++◌, none, some, ◌==◌,
  ◌||◌, length, All, arith,
}
use herd.Common.Text.{Text, text_eq}
use herd.Common.Split.{
  split, has_byte, split_one, split-append, has_byte-append, to_lower_id, IsLower,
}
use herd.Common.Numerals.{
  parse_uint, parse_uint-digits, digits, digits-Digits, Digits, is_digit, has_byte-Digits,
}
use herd.Network.Ipam.Defs.{Address}
use herd.Network.Bindings.Defs.{
  PortBinding, parse_field, parse_fields, parse_ipv4, leads, tcp, udp, default_binding, set_part,
  put_guest, put_host, put_ip, return_or, set_parts, parse_ports, parse_slashes,
  sanitize_network_bindings, show_ip,
}
use herd.Network.Bindings.Accepted.{IsValid}

-- A binding as a user writes it in full, "10.0.0.1:8080:80/tcp".
pub print_ports : PortBinding → Text
print_ports b = show_ip b.ip ++ 58 ∷ (digits 5 b.host_port [] ++ 58 ∷ digits 5 b.guest_port [])

pub print_binding : PortBinding → Text
print_binding b = print_ports b ++ 47 ∷ b.protocol

leads-digits : (a : ℕ) → a ≤ 255 → leads (digits 3 a []) ≡ false
unfolding digits
leads-digits a h = ground arith

parse_field-digits : (a : ℕ) → a ≤ 255 → parse_field (digits 3 a []) ≡ some a
unfolding parse_field
parse_field-digits a h = rw (leads-digits a h, parse_uint-digits 255 2 a (omega arith) h) refl

no_dot : (a : ℕ) → has_byte 46 (digits 3 a []) ≡ false
no_dot a = has_byte-Digits 46 (digits 3 a []) refl (digits-Digits 3 a [] tt)

parse_fields_cons :
    (t : Text) (ts : List Text) (a : ℕ) (as_ : Address)
    → parse_field t ≡ some a
    → parse_fields ts ≡ some as_
    → parse_fields (t ∷ ts) ≡ some (a ∷ as_)
unfolding parse_fields
parse_fields_cons t ts a as_ h k = ground arith

parse_fields-show :
    (a : ℕ) (as_ : Address)
    → All (λ (x : ℕ). x ≤ 255) (a ∷ as_)
    → parse_fields (split 46 (show_ip (a ∷ as_))) ≡ some (a ∷ as_)
unfolding show_ip parse_fields
parse_fields-show a [] (h, hs) =
    rw (split_one 46 (digits 3 a []) (no_dot a))
      (parse_fields_cons _ [] a [] (parse_field-digits a h) refl)
parse_fields-show a (b ∷ as_) (h, hs) =
    rw (split-append 46 (digits 3 a []) (show_ip (b ∷ as_)) (no_dot a))
      (parse_fields_cons _ _ a (b ∷ as_) (parse_field-digits a h) (parse_fields-show b as_ hs))

length-split_show :
    (a : ℕ) (as_ : Address) → length (split 46 (show_ip (a ∷ as_))) ≡ length (a ∷ as_)
unfolding show_ip
length-split_show a [] = rw (split_one 46 (digits 3 a []) (no_dot a)) refl
length-split_show a (b ∷ as_) =
    rw (split-append 46 (digits 3 a []) (show_ip (b ∷ as_)) (no_dot a), length-split_show b as_)
      refl

pub parse_ipv4-show_ip :
    (a : Address) → length a ≡ 4 → All (λ (x : ℕ). x ≤ 255) a → parse_ipv4 (show_ip a) ≡ some a
unfolding parse_ipv4
parse_ipv4-show_ip [] l h = cc
parse_ipv4-show_ip (a ∷ as_) l h = rw (length-split_show a as_, l, parse_fields-show a as_ h) refl

-- Digits and dots.
abbrev pub Dotted : Text → Type 0
Dotted = All (λ (c : ℕ). (is_digit c || c == 46) ≡ true)

Digits-Dotted : (t : Text) → Digits t → Dotted t
Digits-Dotted [] h = tt
Digits-Dotted (c ∷ t) (h, hs) = (ground arith, Digits-Dotted t hs)

Dotted-append : (t u : Text) → Dotted t → Dotted u → Dotted (t ++ u)
Dotted-append [] u h k = k
Dotted-append (c ∷ t) u (h, hs) k = (h, Dotted-append t u hs k)

digits-Dotted : (fuel n : ℕ) → Dotted (digits fuel n [])
digits-Dotted fuel n = Digits-Dotted (digits fuel n []) (digits-Digits fuel n [] tt)

pub show_ip-Dotted : (a : Address) → Dotted (show_ip a)
unfolding show_ip
show_ip-Dotted [] = tt
show_ip-Dotted (a ∷ []) = digits-Dotted 3 a
show_ip-Dotted (a ∷ b ∷ as_) =
    Dotted-append (digits 3 a []) _ (digits-Dotted 3 a) (refl, show_ip-Dotted (b ∷ as_))

-- Of the bytes that matter a dotted text has none.
has_byte-Dotted :
    (sep : ℕ) (t : Text) → (is_digit sep || sep == 46) ≡ false → Dotted t → has_byte sep t ≡ false
unfolding has_byte
has_byte-Dotted sep [] s h = refl
has_byte-Dotted sep (c ∷ t) s (h, hs) = ground (arith, has_byte-Dotted sep t s hs)

Dotted-IsLower : (t : Text) → Dotted t → All IsLower t
Dotted-IsLower [] h = tt
Dotted-IsLower (c ∷ t) (h, hs) = (ground arith, Dotted-IsLower t hs)

IsLower-append : (t u : Text) → All IsLower t → All IsLower u → All IsLower (t ++ u)
IsLower-append [] u h k = k
IsLower-append (c ∷ t) u (h, hs) k = (h, IsLower-append t u hs k)

no_slash : (b : PortBinding) → has_byte 47 (print_ports b) ≡ false
unfolding print_ports has_byte
no_slash b =
    let plain : (t : Text) → Dotted t → has_byte 47 t ≡ false =
      λ t d. has_byte-Dotted 47 t refl d in
    has_byte-append 47 (show_ip b.ip) _ (plain _ (show_ip-Dotted b.ip)) (
      has_byte-append 47 (digits 5 b.host_port []) _ (plain _ (digits-Dotted 5 b.host_port))
        (plain _ (digits-Dotted 5 b.guest_port)))

print_ports-IsLower : (b : PortBinding) → All IsLower (print_ports b)
unfolding print_ports
print_ports-IsLower b = IsLower-append (show_ip b.ip) _ (Dotted-IsLower _ (show_ip-Dotted b.ip)) (
  refl,
  IsLower-append (digits 5 b.host_port []) _ (Dotted-IsLower _ (digits-Dotted 5 b.host_port))
      (refl, Dotted-IsLower _ (digits-Dotted 5 b.guest_port)),
)

split-print_ports :
    (b : PortBinding)
    → split 58 (print_ports b)
      ≡ show_ip b.ip ∷ digits 5 b.host_port [] ∷ digits 5 b.guest_port [] ∷ []
unfolding print_ports
split-print_ports b =
    let plain : (t : Text) → Dotted t → has_byte 58 t ≡ false =
      λ t d. has_byte-Dotted 58 t refl d in
    rw
      (
        split-append 58 (show_ip b.ip) (digits 5 b.host_port [] ++ 58 ∷ digits 5 b.guest_port [])
            (plain _ (show_ip-Dotted b.ip)),
        split-append 58 (digits 5 b.host_port []) (digits 5 b.guest_port [])
            (plain _ (digits-Dotted 5 b.host_port)),
        split_one 58 (digits 5 b.guest_port []) (plain _ (digits-Dotted 5 b.guest_port)),
      )
      refl

-- A part that is not empty and is parsed is written.
set_host-some :
    (t : Text) (n : ℕ) (b : PortBinding)
    → parse_uint 65535 t ≡ some n
    → set_part 1 t b ≡ (record b { host_port = n }, none)
unfolding set_part put_host parse_uint
set_host-some [] n b e = cc
set_host-some (c ∷ cs) n b e = rw e refl

set_ip-some :
    (t : Text) (a : Address) (b : PortBinding)
    → parse_ipv4 t ≡ some a
    → set_part 2 t b ≡ (record b { ip = a }, none)
unfolding set_part put_ip parse_ipv4 split
set_ip-some [] a b e = cc
set_ip-some (c ∷ cs) a b e = rw e refl

parse_ports-print :
    (b c : PortBinding)
    → IsValid b
    → parse_ports (print_ports b) (record c { protocol = b.protocol }) ≡ (b, none)
unfolding parse_ports set_parts set_part put_guest return_or
parse_ports-print b c v =
    rw
      (
        split-print_ports b,
        parse_uint-digits 65535 4 b.guest_port (omega (arith, v.guest_le)) v.guest_le,
        set_host-some _ b.host_port (record c { protocol = b.protocol; guest_port = b.guest_port })
            (parse_uint-digits 65535 4 b.host_port (omega (arith, v.host_le)) v.host_le),
        set_ip-some _ b.ip
            (record c { protocol = b.protocol; guest_port = b.guest_port; host_port = b.host_port })
            (parse_ipv4-show_ip b.ip v.ip_length v.ip_bytes),
      )
      refl

protocol_plain :
    (p : Text)
    → (p ≡ tcp) ⊎ (p ≡ udp)
    → All IsLower p × (has_byte 47 p ≡ false) × ((text_eq tcp p || text_eq udp p) ≡ true)
unfolding text_eq has_byte
protocol_plain p (inl e) =
    subst
      (λ (x : Text).
        All IsLower x × (has_byte 47 x ≡ false) × ((text_eq tcp x || text_eq udp x) ≡ true))
      (sym e) ((refl, (refl, (refl, tt))), refl, refl)
protocol_plain p (inr e) =
    subst
      (λ (x : Text).
        All IsLower x × (has_byte 47 x ≡ false) × ((text_eq tcp x || text_eq udp x) ≡ true))
      (sym e) ((refl, (refl, (refl, tt))), refl, refl)

-- A binding with 16-bit ports, an IPv4 address and the protocol tcp or udp, written in full, is
-- parsed to itself without an error.
pub sanitize-print_binding :
    (b : PortBinding) → IsValid b → sanitize_network_bindings (print_binding b) ≡ (b, none)
unfolding sanitize_network_bindings print_binding parse_slashes
sanitize-print_binding b v =
    let (low, plain, known) = protocol_plain b.protocol v.known in
    let keeps =
      to_lower_id (print_binding b)
        (IsLower-append (print_ports b) (47 ∷ b.protocol) (print_ports-IsLower b) (refl, low)) in
    let parts = split-append 47 (print_ports b) b.protocol (no_slash b) in
    rw (keeps, parts, split_one 47 b.protocol plain, known) (parse_ports-print b default_binding v)
