-- ===== src/Uid/Tests.antt =====
-- The pool of user ids on small inputs.
use herd.Common.{ℕ, ◌≤◌, ◌<◌, ◌≡◌, refl, [], ◌∷◌, arith}
use herd.Uid.Defs.{Pool, checkout}
use herd.Uid.Leases.{House, IsSound, Reach, here, next, lease, count, checkout_exclusive}

abbrev pair : Pool
pair = record { ch = 7 ∷ 8 ∷ []; cap = 2; first = 7; last = 9 }

abbrev house : House
house = record { pool = pair; leased = [] }

house-IsSound : IsSound house
house-IsSound = record { once = λ u. ground arith; sized = refl }

abbrev one_leased : House
one_leased = record { pool = record pair { ch = 8 ∷ [] }; leased = 7 ∷ [] }

one_leased-Reach : Reach house one_leased
unfolding checkout
one_leased-Reach = next here (lease house 7 (record pair { ch = 8 ∷ [] }) refl)

one_leased-IsSound : IsSound one_leased
one_leased-IsSound = record { once = λ u. ground arith; sized = refl }

checkout_exclusive_example :
    (count 8 one_leased.leased ≡ 0) × (7 ≤ 8) × (8 < 9) × ((u : ℕ) → count u (8 ∷ 7 ∷ []) ≤ 1)
unfolding checkout
checkout_exclusive_example =
    checkout_exclusive house one_leased 8 (record pair { ch = [] }) house-IsSound one_leased-Reach
      refl

abbrev drained : Pool
drained = record pair { ch = [] }
