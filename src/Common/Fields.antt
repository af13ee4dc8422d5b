-- ===== src/Common/Fields.antt =====
-- `strings.Fields`, `strings.TrimSuffix`, `strings.Contains` and `strconv.ParseInt` on texts in ASCII.
use Prim.Native.Nat.{ℕ, ◌-◌, ◌^◌}
use mathlib.Core.Path.{◌≡◌, refl}
use mathlib.Core.List.{List, [], ◌∷◌, ◌++◌}
use mathlib.Core.Bool.{Bool, true, false}
use mathlib.Core.Option.{none, some}
use native.Mathlib.Omega.{arith}
use herd.Common.Tests.{◌==◌, leb, if◌then◌else◌}
use herd.Common.Text.{Text, is_empty}
use herd.Common.Int.{ℤ, pos, negsuc}
use herd.Common.Lists.{All}
use herd.Common.Split.{is_space, has_prefix, prepend}
use herd.Common.Numerals.{value, Digits}

-- The parts between the spaces, the empty ones too.
unfoldable pub split_spaces : Text → List Text
split_spaces [] = [] ∷ []
split_spaces (c ∷ t) =
    let parts = split_spaces t in if is_space c then [] ∷ parts else prepend c parts

unfoldable pub drop_empty : List Text → List Text
drop_empty [] = []
drop_empty (p ∷ ps) = let rest = drop_empty ps in if is_empty p then rest else p ∷ rest

unfoldable pub fields : Text → List Text
fields t = drop_empty (split_spaces t)

abbrev pub NoSpace : Text → Type 0
NoSpace = All (λ (c : ℕ). is_space c ≡ false)

split_spaces_one : (w : Text) → NoSpace w → split_spaces w ≡ w ∷ []
unfolding split_spaces
split_spaces_one [] n = refl
split_spaces_one (c ∷ w) (h, n) = ground (arith, split_spaces_one w n)

split_spaces-append :
    (w t : Text) (c : ℕ)
    → NoSpace w
    → is_space c ≡ true
    → split_spaces (w ++ c ∷ t) ≡ w ∷ split_spaces t
unfolding split_spaces
split_spaces-append [] t c n s = ground arith
split_spaces-append (d ∷ w) t c (h, n) s = ground (arith, split_spaces-append w t c n s)

-- A word is a field, alone and before a space; spaces before a text make no difference.
pub fields_one : (w : Text) → NoSpace w → is_empty w ≡ false → fields w ≡ w ∷ []
unfolding fields drop_empty
fields_one w n e = rw (split_spaces_one w n, e) refl

pub fields-append :
    (w t : Text) (c : ℕ)
    → NoSpace w
    → is_empty w ≡ false
    → is_space c ≡ true
    → fields (w ++ c ∷ t) ≡ w ∷ fields t
unfolding fields drop_empty
fields-append w t c n e s = rw (split_spaces-append w t c n s, e) refl

pub fields-space : (t : Text) (c : ℕ) → is_space c ≡ true → fields (c ∷ t) ≡ fields t
unfolding fields drop_empty split_spaces
fields-space t c s = ground arith

pub NoSpace-append : (t u : Text) → NoSpace t → NoSpace u → NoSpace (t ++ u)
NoSpace-append [] u n m = m
NoSpace-append (c ∷ t) u (h, n) m = (h, NoSpace-append t u n m)

pub Digits-NoSpace : (t : Text) → Digits t → NoSpace t
Digits-NoSpace [] h = tt
Digits-NoSpace (c ∷ t) (h, hs) = (ground arith, Digits-NoSpace t hs)

unfoldable pub contains : Text → Text → Bool
contains p [] = is_empty p
contains p (c ∷ t) = let rest = contains p t in if has_prefix p (c ∷ t) then true else rest

-- `strings.TrimSuffix` of one byte.
unfoldable pub trim_suffix : ℕ → Text → Text
trim_suffix b [] = []
trim_suffix b (c ∷ []) = if c == b then [] else c ∷ []
trim_suffix b (c ∷ d ∷ t) = c ∷ trim_suffix b (d ∷ t)

pub trim_suffix-snoc : (b : ℕ) (t : Text) → trim_suffix b (t ++ b ∷ []) ≡ t
unfolding trim_suffix
trim_suffix-snoc b [] = ground arith
trim_suffix-snoc b (c ∷ []) = ground arith
trim_suffix-snoc b (c ∷ d ∷ t) = ground (arith, trim_suffix-snoc b (d ∷ t))

-- The digits after a sign: a value out of range is the largest there is, with an error.
unfoldable pub signed : ℕ → (ℕ → ℤ) → Text → ℤ × Bool
signed max sign [] = (pos 0, false)
signed max sign (c ∷ t) = elim (value 0 (c ∷ t)) [
  | none ↦ (pos 0, false)
  | some n ↦ if leb n max then (sign n, true) else (sign max, false)
]

abbrev pub negative : ℕ → ℤ
negative n = if n == 0 then pos 0 else negsuc (n - 1)

-- `strconv.ParseInt(t, 10, 64)`: the value, which is also there beside an error, and whether there is
-- none.
unfoldable pub parse_int : Text → ℤ × Bool
parse_int [] = (pos 0, false)
parse_int (c ∷ t) =
    if c == b'-'
    then signed (2 ^ 63) negative t
    else if c == b'+'
    then signed (2 ^ 63 - 1) pos t
    else signed (2 ^ 63 - 1) pos (c ∷ t)
