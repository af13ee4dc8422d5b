-- ===== src/Network/Ipam/Allocation.antt =====
-- What `Acquire` does on a /16 block, as the daemon uses: bounds, freshness, and that its loop ends.
use herd.Common.{
  ℕ, zero, suc, ◌+◌, ◌-◌, ◌%◌, ◌≤◌, ◌<◌, ◌≡◌, ◌≢◌, ◌⊎◌, inl, inr, refl, sym, ap, subst, ◌∙◌, Bool,
  true, false, Bool-cases, [], ◌∷◌, ◌==◌, if◌then◌else◌, ==_iff, arith, leb, ltb, ◌&&◌, ◌||◌,
}
use herd.Network.Ipam.Defs.{
  Address, Subnet, Ipam, Answer, got, exhausted, address_eq, is_used, advance, search, acquire,
  new_ipam, inc, inc_carry, contains,
}
use herd.Network.Ipam.Bytes.{bit_and-255}
use herd.Network.Ipam.Block.{block, host, after, address_eq-host, advance-host, first-host}

-- How many candidates the loop has still to try, from the number `k` and with its start at `n`.
abbrev left : ℕ → ℕ → ℕ
left n k = if leb n k then 65533 - (k - n) else n - k

-- The numbers from `n` up to `k`, in the order of the loop.
abbrev seen : ℕ → ℕ → ℕ → Bool
seen n k m = if leb n k then leb n m && ltb m k else leb n m || ltb m k

left-after :
    (n k : ℕ)
    → 2 ≤ n
    → n < 65535
    → 2 ≤ k
    → k < 65535
    → after k ≢ n
    → left n (after k) + 1 ≡ left n k
left-after n k a b c d e = ground arith

seen-after :
    (n k m : ℕ)
    → 2 ≤ n
    → n < 65535
    → 2 ≤ k
    → k < 65535
    → 2 ≤ m
    → m < 65535
    → after k ≢ n
    → seen n (after k) m ≡ true
    → (seen n k m ≡ true) ⊎ (m ≡ k)
seen-after n k m a b c d e f x h = ground arith

seen-all :
    (n k m : ℕ)
    → 2 ≤ n
    → n < 65535
    → 2 ≤ k
    → k < 65535
    → 2 ≤ m
    → m < 65535
    → after k ≡ n
    → (seen n k m ≡ true) ⊎ (m ≡ k)
seen-all n k m a b c d e f x = ground arith

module _ (a b : ℕ) (a_byte : a < 256) (b_byte : b < 256) where
  abbrev at : Ipam → ℕ → Ipam
  at i k = record i { next_ip = host a b k }

  abbrev used_at : Ipam → ℕ → Bool
  used_at i m = is_used (host a b m) i.used

  -- The loop's outcome: an unused address of the block, or none is left.
  abbrev Post : Ipam → Ipam × Answer → Type 0
  Post i r =
      ((m : ℕ) × (2 ≤ m)
        × (m < 65535)
        × (used_at i m ≡ false)
        × (r ≡ (
          record i { used = host a b m ∷ i.used; next_ip = host a b (after m) },
          got (host a b m),
        )))
      ⊎ ((r.1 ≡ exhausted) × (r.0.used ≡ i.used) × ((m : ℕ) → used_at i (2 + m % 65533) ≡ true))

  search-Post :
      (fuel n k : ℕ) (i : Ipam)
      → i.subnet ≡ block a b
      → 2 ≤ n
      → n < 65535
      → 2 ≤ k
      → k < 65535
      → left n k ≤ fuel
      → ((m : ℕ) → 2 ≤ m → m < 65535 → seen n k m ≡ true → used_at i m ≡ true)
      → Post i (search fuel (host a b n) (at i k))
  unfolding search
  search-Post zero n k i same n1 n2 k1 k2 enough old = absurd (ground arith)
  search-Post (suc fuel) n k i same n1 n2 k1 k2 enough old = elim (Bool-cases (used_at i k)) [
    | inr free ↦ inl (k, k1, k2, free, rw (free, moves) refl)
    | inl taken ↦ elim (Bool-cases (after k == n)) [
      | inl wrapped ↦ inr (
        rw (taken, moves, meets, wrapped) refl,
        rw (taken, moves, meets, wrapped) refl,
        λ m.
            elim (seen-all n k (2 + m % 65533) n1 n2 k1 k2 (omega arith) (omega arith)
              ((==_iff (after k) n).0 wrapped)) [
                | inl before ↦ old (2 + m % 65533) (omega arith) (omega arith) before
                | inr here ↦ rw here taken
              ],
      )
      | inr going ↦
          rw (taken, moves, meets, going)
            (search-Post fuel n (after k) i same n1 n2 (ground arith) (ground arith)
              (ground (arith, left-after n k n1 n2 k1 k2))
              (λ m m1 m2 s. elim (seen-after n k m n1 n2 k1 k2 m1 m2 (ground arith) s) [
                | inl before ↦ old m m1 m2 before
                | inr here ↦ rw here taken
              ]))
    ]
  ]
    where
      moves : advance i.subnet (host a b k) ≡ host a b (after k)
      moves = rw same (advance-host a b a_byte b_byte k k2)

      meets : address_eq (host a b (after k)) (host a b n) ≡ (after k == n)
      meets = address_eq-host a b a_byte b_byte (after k) n (ground arith) (omega arith)

-- The allocator of a /16 block between two calls: its next candidate is one that it may give out.
pub record IsReady (a b : ℕ) (i : Ipam) : Type 0 where
  pub a_byte : a < 256
  pub b_byte : b < 256
  pub same : i.subnet ≡ block a b
  pub cursor : ℕ
  pub low : 2 ≤ cursor
  pub high : cursor < 65535
  pub at_cursor : i.next_ip ≡ host a b cursor

-- What `Acquire` gives: the address of the block numbered `m`, from 2 to 65534, which was not in
-- use and now is, or no address, when each of those numbers is in use, and then `used` stays.
abbrev pub Acquired : ℕ → ℕ → Ipam → Ipam × Answer → Type 0
Acquired a b i r =
    ((m : ℕ) × (2 ≤ m)
      × (m < 65535)
      × (is_used (host a b m) i.used ≡ false)
      × (r ≡ (
        record i { used = host a b m ∷ i.used; next_ip = host a b (after m) },
        got (host a b m),
      )))
    ⊎ ((r.1 ≡ exhausted)
        × (r.0.used ≡ i.used)
        × ((m : ℕ) → is_used (host a b (2 + m % 65533)) i.used ≡ true))

-- `Acquire` on a /16 block ends, with 65533 rounds of its loop at most: it gives an address of the
-- block that is neither the network's, the gateway's nor the broadcast address, that was not in use
-- and is in use afterwards; or it reports exhaustion, when all 65533 such addresses are in use.
pub acquire-Acquired :
    (a b fuel : ℕ) (i : Ipam) → IsReady a b i → 65533 ≤ fuel → Acquired a b i (acquire fuel i)
unfolding acquire
acquire-Acquired a b fuel i v enough =
    subst (λ (x : Address). Acquired a b i (search fuel x (record i { next_ip = x })))
      (sym v.at_cursor)
      (search-Post a b v.a_byte v.b_byte fuel v.cursor v.cursor i v.same v.low v.high v.low v.high
        (ground arith) (λ m m1 m2 s. absurd (nothing_seen v.cursor m s)))
  where
    nothing_seen : (n m : ℕ) → seen n n m ≡ true → ⊥
    nothing_seen n m h = ground arith

-- A new allocator of a /16 block is ready, and so it is after every `Acquire` that gives an address
-- and after every `Release`.
pub new_ipam-IsReady : (a b : ℕ) → a < 256 → b < 256 → IsReady a b (new_ipam (block a b))
unfolding new_ipam
new_ipam-IsReady a b ha hb = record {
  a_byte = ha;
  b_byte = hb;
  same = refl;
  cursor = 2;
  low = omega arith;
  high = omega arith;
  at_cursor = first-host a b ha hb;
}

pub acquire-IsReady :
    (a b fuel : ℕ) (i j : Ipam) (ip : Address)
    → IsReady a b i
    → 65533 ≤ fuel
    → acquire fuel i ≡ (j, got ip)
    → IsReady a b j
acquire-IsReady a b fuel i j ip v enough e = elim (acquire-Acquired a b fuel i v enough) [
  | inl (m, low, high, free, r) ↦
      let same : j ≡ record i { used = host a b m ∷ i.used; next_ip = host a b (after m) } = cc in
      record {
        a_byte = v.a_byte;
        b_byte = v.b_byte;
        same = ap (λ (k : Ipam). k.subnet) same ∙ v.same;
        cursor = after m;
        low = ground arith;
        high = ground arith;
        at_cursor = ap (λ (k : Ipam). k.next_ip) same;
      }
  | inr (x, _, _) ↦ cc
]

abbrev pub one_address : ℕ → ℕ → ℕ → ℕ → Subnet
one_address a b c d = record { ip = a ∷ b ∷ c ∷ d ∷ []; mask = 255 ∷ 255 ∷ 255 ∷ 255 ∷ [] }

-- On a /32 block, which `NewIPAM` accepts, the first `Acquire` gives an address outside the block.
pub acquire_outside :
    (a b c d fuel : ℕ)
    → a < 256
    → b < 256
    → c < 256
    → d + 2 < 256
    → let s = one_address a b c d in
      ((acquire (suc fuel) (new_ipam s)).1 ≡ got (a ∷ b ∷ c ∷ (d + 2) ∷ []))
      × (contains s.ip s.mask (a ∷ b ∷ c ∷ (d + 2) ∷ []) ≡ false)
unfolding new_ipam acquire search inc inc_carry contains is_used
acquire_outside a b c d fuel ha hb hc hd =
    (ground arith, ground (arith, bit_and-255 d, bit_and-255 (d + 2)))
