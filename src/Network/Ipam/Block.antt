-- ===== src/Network/Ipam/Block.antt =====
-- A /16 block a.b.0.0, as the daemon's 10.200.0.0/16: its addresses by number, and their order.
use herd.Common.{ℕ, ◌+◌, ◌/◌, ◌%◌, ◌<◌, ◌≡◌, refl, true, [], ◌∷◌, ◌==◌, if◌then◌else◌, arith}
use herd.Network.Ipam.Defs.{
  Address, Subnet, address_eq, inc_carry, inc, is_broadcast, contains, advance,
}
use herd.Network.Ipam.Bytes.{bit_and-0, bit_or-255, bit_or-0}

module _ (a b : ℕ) where
  abbrev pub block : Subnet
  block = record { ip = a ∷ b ∷ 0 ∷ 0 ∷ []; mask = 255 ∷ 255 ∷ 0 ∷ 0 ∷ [] }

  -- The address a.b.0.0 + n.
  abbrev pub host : ℕ → Address
  host n = a ∷ b ∷ n / 256 ∷ n % 256 ∷ []

-- The numbers that are given out are 2 to 65534: not the network, the gateway or the broadcast.
abbrev pub after : ℕ → ℕ
after n = if n == 65534 then 2 else n + 1

module _ (a b : ℕ) (a_byte : a < 256) (b_byte : b < 256) where
  inc-host : (n : ℕ) → n < 65535 → inc (host a b n) ≡ host a b (n + 1)
  unfolding inc inc_carry
  inc-host n h = ground arith

  pub address_eq-host :
      (m n : ℕ) → m < 65536 → n < 65536 → address_eq (host a b m) (host a b n) ≡ (m == n)
  unfolding address_eq
  address_eq-host m n h k = ground arith

  contains-host : (n : ℕ) → n < 65536 → contains (block a b).ip (block a b).mask (host a b n) ≡ true
  unfolding contains
  contains-host n h = ground (arith, bit_and-0 (n / 256), bit_and-0 (n % 256))

  is_broadcast-host :
      (n : ℕ) → n < 65536 → is_broadcast (host a b n) (block a b).mask ≡ (n == 65535)
  unfolding is_broadcast
  is_broadcast-host n h =
      ground
        (arith, bit_or-255 a a_byte, bit_or-255 b b_byte, bit_or-0 (n / 256), bit_or-0 (n % 256))

  pub first-host : inc (inc (block a b).ip) ≡ host a b 2
  unfolding inc inc_carry
  first-host = refl

  pub advance-host : (n : ℕ) → n < 65535 → advance (block a b) (host a b n) ≡ host a b (after n)
  unfolding advance
  advance-host n h =
      rw
        (inc-host n h, contains-host (n + 1) (omega arith), is_broadcast-host (n + 1) (omega arith))
        (ground (arith, first-host))
