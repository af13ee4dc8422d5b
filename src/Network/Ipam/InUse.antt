-- ===== src/Network/Ipam/InUse.antt =====
-- The table of used addresses under `Acquire` and `Release`, on any block.
use herd.Common.{
  ℕ, zero, suc, ◌≡◌, ◌↔◌, refl, Bool, true, false, List, [], ◌∷◌, if◌then◌else◌, arith,
}
use herd.Network.Ipam.Defs.{
  Address, Ipam, Answer, got, address_eq, is_used, forget, advance, search, release,
}

pub address_eq_iff : (x y : Address) → (address_eq x y ≡ true) ↔ (x ≡ y)
unfolding address_eq
address_eq_iff [] [] = (λ h. refl, λ h. refl)
address_eq_iff [] (b ∷ bs) = (λ h. cc, λ h. cc)
address_eq_iff (a ∷ as_) [] = (λ h. cc, λ h. cc)
address_eq_iff (a ∷ as_) (b ∷ bs) =
    (λ h. ground (arith, address_eq_iff as_ bs), λ h. ground (arith, address_eq_iff as_ bs))

is_used-forget :
    (x y : Address) (us : List Address)
    → is_used y (forget x us) ≡ (if address_eq x y then false else is_used y us)
unfolding is_used forget
is_used-forget x y [] = ground arith
is_used-forget x y (u ∷ us) =
    ground
      (arith, is_used-forget x y us, address_eq_iff u x, address_eq_iff u y, address_eq_iff x y)

-- `Release` of an address makes that address, and no other, unused.
pub is_used-release :
    (i : Ipam) (x y : Address)
    → is_used y (release i x).used ≡ (if address_eq x y then false else is_used y i.used)
unfolding release
is_used-release i x y = is_used-forget x y i.used

-- Whether an answer gives the address.
abbrev pub gives : Answer → Address → Bool
gives (got ip) a = address_eq ip a
gives _ a = false

-- On any block and after any number of rounds, `Acquire` makes the address that it gives used, which
-- was not, and no other.
pub search-is_used :
    (fuel : ℕ) (first a : Address) (i : Ipam)
    → (is_used a (search fuel first i).0.used
        ≡ (if gives (search fuel first i).1 a then true else is_used a i.used))
      × (gives (search fuel first i).1 a ≡ true → is_used a i.used ≡ false)
unfolding search is_used
search-is_used zero first a i = (refl, λ e. cc)
search-is_used (suc fuel) first a i = ground (
  arith,
  address_eq_iff i.next_ip a,
  search-is_used fuel first a (record i { next_ip = advance i.subnet i.next_ip }),
)
