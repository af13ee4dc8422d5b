-- ===== src/Network/Bindings/Interface.antt =====
-- What `GetInterfaceIP` returns.
use herd.Common.{
  ℕ, ◌+◌, ◌≤◌, ◌≡◌, ◌⊎◌, inl, inr, refl, subst, false, Bool-cases, Option-cases, List, [], ◌∷◌,
  Option, some, ◌==◌, ◌||◌, length, All, arith,
}
use herd.Common.Text.{Text}
use herd.Network.Ipam.Defs.{Address}
use herd.Network.Bindings.Defs.{
  Addr, ip_of, to_4, strip_prefix, mapped_prefix, is_nil, is_loopback, parse_ipv4, show_ip,
  first_ipv4, get_interface_ip,
}
use herd.Network.Bindings.RoundTrip.{parse_ipv4-show_ip}

abbrev pub Bytes : List ℕ → Type 0
Bytes = All (λ (x : ℕ). x ≤ 255)

strip_prefix-some :
    (ps xs rest : List ℕ)
    → strip_prefix ps xs ≡ some rest
    → Bytes xs
    → (length xs ≡ length ps + length rest) × Bytes rest
unfolding strip_prefix
strip_prefix-some [] xs rest h b = ground arith
strip_prefix-some (p ∷ ps) [] rest h b = cc
strip_prefix-some (p ∷ ps) (x ∷ xs) rest h (b, bs) = ground (arith, strip_prefix-some ps xs rest)

to_4-Bytes : (ip : List ℕ) → Bytes ip → ((to_4 ip ≡ []) ⊎ (length (to_4 ip) ≡ 4)) × Bytes (to_4 ip)
unfolding to_4
to_4-Bytes ip b = elim (Bool-cases (length ip == 4)) [
  | inl e ↦ rw e (inr (ground arith), b)
  | inr e ↦ elim (Bool-cases (length ip == 16)) [
    | inr d ↦ rw (e, d) (inl refl, tt)
    | inl d ↦ elim (Option-cases (strip_prefix mapped_prefix ip)) [
      | inl s ↦ rw (e, d, s) (inl refl, tt)
      | inr (rest, s) ↦
          let (l, r) = strip_prefix-some mapped_prefix ip rest s b in
          rw (e, d, s) (inr (ground arith), r)
    ]
  ]
]

to_4_id : (ip : List ℕ) → length ip ≡ 4 → to_4 ip ≡ ip
unfolding to_4
to_4_id ip h = rw h refl

List-cases : (xs : List ℕ) → (xs ≡ []) ⊎ ((a : ℕ) × (as_ : List ℕ) × (xs ≡ a ∷ as_))
List-cases [] = inl refl
List-cases (a ∷ as_) = inr (a, as_, refl)

is_loopback_v4 : (a : ℕ) (as_ ip : List ℕ) → to_4 ip ≡ a ∷ as_ → is_loopback ip ≡ (a == 127)
unfolding is_loopback
is_loopback_v4 a as_ ip e = ground arith

-- What the loop returns for an address that it takes.
taken :
    (a : ℕ) (as_ ip : List ℕ)
    → to_4 ip ≡ a ∷ as_
    → Bytes ip
    → is_loopback ip ≡ false
    → (parse_ipv4 (show_ip (a ∷ as_)) ≡ some (a ∷ as_)) × (is_loopback (a ∷ as_) ≡ false)
taken a as_ ip e b n =
    let (shape, bytes) = to_4-Bytes ip b in
    let four : length (a ∷ as_) ≡ 4 = elim shape [ inl z ↦ absurd (cc) | inr l ↦ ground arith ] in
    let same_test = is_loopback_v4 a as_ (a ∷ as_) (to_4_id (a ∷ as_) four) in
    (
      parse_ipv4-show_ip (a ∷ as_) four (subst Bytes e bytes),
      ground (arith, same_test, is_loopback_v4 a as_ ip e),
    )

-- The first address is taken, or what is returned is from the others.
first_ipv4-some :
    (x : Addr) (as_ : List Addr) (t : Text)
    → first_ipv4 (x ∷ as_) ≡ some t
    → (first_ipv4 as_ ≡ some t)
      ⊎ ((a : ℕ) × (rest : List ℕ) × (to_4 (ip_of x) ≡ a ∷ rest)
          × (is_loopback (ip_of x) ≡ false)
          × (t ≡ show_ip (a ∷ rest)))
unfolding first_ipv4
first_ipv4-some x as_ t h = elim (Bool-cases (is_nil (ip_of x) || is_loopback (ip_of x))) [
  | inl e ↦ inl (ground arith)
  | inr e ↦ elim (List-cases (to_4 (ip_of x))) [
    | inl d ↦ inl (ground arith)
    | inr (a, rest, d) ↦ inr (a, rest, d, ground arith, ground arith)
  ]
]

first_ipv4-parse :
    (as_ : List Addr) (t : Text)
    → All (λ (x : Addr). Bytes (ip_of x)) as_
    → first_ipv4 as_ ≡ some t
    → (a : Address) × (parse_ipv4 t ≡ some a) × (is_loopback a ≡ false)
unfolding first_ipv4
first_ipv4-parse [] t b h = cc
first_ipv4-parse (x ∷ as_) t (b, bs) h = elim (first_ipv4-some x as_ t h) [
  | inl e ↦ first_ipv4-parse as_ t bs e
  | inr (a, rest, e, n, d) ↦
      let (parsed, loop) = taken a rest (ip_of x) e b n in (a ∷ rest, rw d parsed, loop)
]

-- The text that `GetInterfaceIP` returns, where addresses are made of bytes, is an IPv4 address for the
-- parser of bindings, and no loopback address.
pub get_interface_ip-parse :
    (addrs : Text → Option (List Addr)) (name : Text) (as_ : List Addr) (t : Text)
    → addrs name ≡ some as_
    → All (λ (x : Addr). Bytes (ip_of x)) as_
    → get_interface_ip addrs name ≡ some t
    → (a : Address) × (parse_ipv4 t ≡ some a) × (is_loopback a ≡ false)
unfolding get_interface_ip
get_interface_ip-parse addrs name as_ t e b h = first_ipv4-parse as_ t b (ground arith)
