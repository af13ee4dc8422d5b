-- ===== src/Common/Numerals.antt =====
-- `strconv.ParseUint` in base 10, and how a number is printed.
use Prim.Native.Nat.{ℕ, zero, suc, ◌+◌, ◌-◌, ◌*◌, ◌/◌, ◌%◌, ◌^◌, ◌≤◌, ◌<◌}
use mathlib.Core.Path.{◌≡◌, refl}
use mathlib.Core.List.{[], ◌∷◌}
use mathlib.Core.Bool.{Bool, true, false, ◌&&◌}
use mathlib.Core.Logic.{inl, inr}
use mathlib.Core.Option.{Option, none, some}
use native.Mathlib.Omega.{arith}
use herd.Common.Tests.{leb, ltb, if◌then◌else◌, Option-cases}
use herd.Common.Text.{Text}
use herd.Common.Lists.{All, length}
use herd.Common.Split.{has_byte, IsLower}

abbrev pub is_digit : ℕ → Bool
is_digit c = leb 48 c && leb c 57

-- The value of the digits after digits of value `v`.
unfoldable pub value : ℕ → Text → Option ℕ
value v [] = some v
value v (c ∷ cs) = let rest = value (v * 10 + (c - 48)) cs in if is_digit c then rest else none

-- `strconv.ParseUint(t, 10, bits)` for the bits of which `max` is the largest number.
unfoldable pub parse_uint : ℕ → Text → Option ℕ
parse_uint max [] = none
parse_uint max (c ∷ cs) = elim (value 0 (c ∷ cs)) [
  | none ↦ none
  | some n ↦ if leb n max then some n else none
]

-- The digits of a number before a text; the fuel bounds how many there are.
unfoldable pub digits : ℕ → ℕ → Text → Text
digits zero n t = t
digits (suc fuel) n t =
    let rest = digits fuel (n / 10) ((48 + n % 10) ∷ t) in if ltb n 10 then (48 + n) ∷ t else rest

pub value-digits : (fuel n : ℕ) (t : Text) → n < 10 ^ fuel → value 0 (digits fuel n t) ≡ value n t
unfolding value digits
value-digits zero n t h = ground arith
value-digits (suc fuel) n t h = ground (arith, value-digits fuel (n / 10) ((48 + n % 10) ∷ t))

-- The bytes of a numeral.
abbrev pub Digits : Text → Type 0
Digits = All (λ (c : ℕ). is_digit c ≡ true)

pub digits-Digits : (fuel n : ℕ) (t : Text) → Digits t → Digits (digits fuel n t)
unfolding digits
digits-Digits zero n t h = h
digits-Digits (suc fuel) n t h = ground (arith, digits-Digits fuel (n / 10) ((48 + n % 10) ∷ t))

pub Digits-IsLower : (t : Text) → Digits t → All IsLower t
Digits-IsLower [] h = tt
Digits-IsLower (c ∷ t) (h, hs) = (ground arith, Digits-IsLower t hs)

pub has_byte-Digits :
    (sep : ℕ) (t : Text) → is_digit sep ≡ false → Digits t → has_byte sep t ≡ false
unfolding has_byte
has_byte-Digits sep [] s h = refl
has_byte-Digits sep (c ∷ t) s (h, hs) = ground (arith, has_byte-Digits sep t s hs)

pub parse_uint_le : (max n : ℕ) (t : Text) → parse_uint max t ≡ some n → n ≤ max
unfolding parse_uint
parse_uint_le max n [] h = cc
parse_uint_le max n (c ∷ cs) h = elim (Option-cases (value 0 (c ∷ cs))) [
  | inl e ↦ ground arith
  | inr (v, e) ↦ ground arith
]

pub length-digits_le : (fuel n : ℕ) (t : Text) → length t ≤ length (digits fuel n t)
unfolding digits
length-digits_le zero n t = omega arith
length-digits_le (suc fuel) n t = ground (arith, length-digits_le fuel (n / 10) ((48 + n % 10) ∷ t))

pub length-digits_pos : (fuel n : ℕ) → 0 < length (digits (suc fuel) n [])
unfolding digits
length-digits_pos fuel n = ground (arith, length-digits_le fuel (n / 10) ((48 + n % 10) ∷ []))

pub parse_uint-value :
    (max n : ℕ) (t : Text) → 0 < length t → value 0 t ≡ some n → n ≤ max → parse_uint max t ≡ some n
unfolding parse_uint
parse_uint-value max n [] l e h = absurd (omega arith)
parse_uint-value max n (c ∷ cs) l e h = ground arith

-- A number with that many digits at most, printed, is read back.
pub parse_uint-digits :
    (max fuel n : ℕ)
    → n < 10 ^ suc fuel
    → n ≤ max
    → parse_uint max (digits (suc fuel) n []) ≡ some n
unfolding value
parse_uint-digits max fuel n h k =
    parse_uint-value max n (digits (suc fuel) n []) (length-digits_pos fuel n)
      (value-digits (suc fuel) n [] h) k
