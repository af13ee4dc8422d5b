-- ===== src/Network/Ipam/Defs.antt =====
-- internal/network/ipam.go. An address is its list of bytes, which is also its key in `usedIPs`: the
-- code prints it first, and two addresses of one length print alike only if they are equal.
use Prim.Native.Nat.{bit_and, bit_or}
use herd.Common.{
  ℕ, zero, suc, ◌+◌, ◌%◌, ◌&&◌, ◌||◌, not, Bool, true, false, List, [], ◌∷◌, ◌==◌, if◌then◌else◌,
}

abbrev pub Address : Type 0
Address = List ℕ

-- `net.IPNet`
pub record Subnet : Type 0 where
  pub ip : Address
  pub mask : List ℕ

unfoldable pub address_eq : Address → Address → Bool
address_eq [] [] = true
address_eq [] (b ∷ bs) = false
address_eq (a ∷ as_) [] = false
address_eq (a ∷ as_) (b ∷ bs) = a == b && address_eq as_ bs

-- `inc` on the bytes of a tail, with the carry out of its first byte.
unfoldable pub inc_carry : Address → Address × Bool
inc_carry [] = ([], true)
inc_carry (b ∷ bs) =
    let (rest, carry) = inc_carry bs in
    if carry then ((b + 1) % 256 ∷ rest, (b + 1) % 256 == 0) else (b ∷ rest, false)

-- `inc`: the last byte goes up by one, and so does each byte before one that became 0.
unfoldable pub inc : Address → Address
inc ip = (inc_carry ip).0

-- `isBroadcast`
unfoldable pub is_broadcast : Address → List ℕ → Bool
is_broadcast [] [] = true
is_broadcast [] (m ∷ ms) = false
is_broadcast (b ∷ bs) [] = false
is_broadcast (b ∷ bs) (m ∷ ms) = bit_or b m == 255 && is_broadcast bs ms

-- `net.IPNet.Contains` on addresses of the length of the mask.
unfoldable pub contains : Address → List ℕ → Address → Bool
contains [] [] [] = true
contains (n ∷ ns) (m ∷ ms) (b ∷ bs) = bit_and n m == bit_and b m && contains ns ms bs
contains _ _ _ = false

pub record Ipam : Type 0 where
  pub subnet : Subnet
  pub used : List Address
  pub next_ip : Address

-- `NewIPAM` on the block that `net.ParseCIDR` returned; its address has the host bits cleared.
unfoldable pub new_ipam : Subnet → Ipam
new_ipam subnet = record { subnet = subnet; used = []; next_ip = inc (inc subnet.ip) }

unfoldable pub is_used : Address → List Address → Bool
is_used ip [] = false
is_used ip (u ∷ us) = if address_eq u ip then true else is_used ip us

unfoldable pub forget : Address → List Address → List Address
forget ip [] = []
forget ip (u ∷ us) = let rest = forget ip us in if address_eq u ip then rest else u ∷ rest

-- The next candidate: the address after this one, or the first one again at the end of the block.
unfoldable pub advance : Subnet → Address → Address
advance s ip =
    let next = inc ip in
    if not (contains s.ip s.mask next) || is_broadcast next s.mask then inc (inc s.ip) else next

pub data Answer : Type 0 where
  got : Address → Answer
  exhausted : Answer
  out_of_fuel : Answer

-- The loop of `Acquire`, from the candidate that it started with.
unfoldable pub search : ℕ → Address → Ipam → Ipam × Answer
search zero start i = (i, out_of_fuel)
search (suc fuel) start i =
    let next = advance i.subnet i.next_ip in
    let rest = search fuel start (record i { next_ip = next }) in
    if not (is_used i.next_ip i.used)
    then (record i { used = i.next_ip ∷ i.used; next_ip = next }, got i.next_ip)
    else if address_eq next start
    then (record i { next_ip = next }, exhausted)
    else rest

-- `Acquire`
unfoldable pub acquire : ℕ → Ipam → Ipam × Answer
acquire fuel i = search fuel i.next_ip i

-- `Release`
unfoldable pub release : Ipam → Address → Ipam
release i ip = record i { used = forget ip i.used }
