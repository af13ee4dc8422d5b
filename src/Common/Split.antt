-- ===== src/Common/Split.antt =====
-- `strings.Split` at one byte, and `strings.ToLower` on texts in ASCII.
use Prim.Native.Nat.{ℕ, ◌+◌}
use mathlib.Core.Path.{◌≡◌, refl}
use mathlib.Core.List.{List, [], ◌∷◌, ◌++◌}
use mathlib.Core.Bool.{Bool, true, false, ◌&&◌, ◌||◌}
use native.Mathlib.Omega.{arith}
use herd.Common.Tests.{◌==◌, leb, if◌then◌else◌}
use herd.Common.Text.{Text}
use herd.Common.Lists.{All}

abbrev pub prepend : ℕ → List Text → List Text
prepend a [] = (a ∷ []) ∷ []
prepend a (p ∷ ps) = (a ∷ p) ∷ ps

-- The parts between the separators: one more than there are separators.
unfoldable pub split : ℕ → Text → List Text
split sep [] = [] ∷ []
split sep (a ∷ t) = let parts = split sep t in if a == sep then [] ∷ parts else prepend a parts

unfoldable pub has_byte : ℕ → Text → Bool
has_byte sep [] = false
has_byte sep (a ∷ t) = if a == sep then true else has_byte sep t

-- A text without the separator is one part, and stands before the parts of what follows a separator.
pub split_one : (sep : ℕ) (t : Text) → has_byte sep t ≡ false → split sep t ≡ t ∷ []
unfolding split has_byte
split_one sep [] h = refl
split_one sep (a ∷ t) h = ground (arith, split_one sep t)

pub split-append :
    (sep : ℕ) (t u : Text) → has_byte sep t ≡ false → split sep (t ++ sep ∷ u) ≡ t ∷ split sep u
unfolding split has_byte
split-append sep [] u h = ground arith
split-append sep (a ∷ t) u h = ground (arith, split-append sep t u)

pub has_byte-append :
    (sep : ℕ) (t u : Text)
    → has_byte sep t ≡ false
    → has_byte sep u ≡ false
    → has_byte sep (t ++ u) ≡ false
unfolding has_byte
has_byte-append sep [] u h k = k
has_byte-append sep (a ∷ t) u h k = ground (arith, has_byte-append sep t u)

abbrev pub lower : ℕ → ℕ
lower a = if leb 65 a && leb a 90 then a + 32 else a

unfoldable pub to_lower : Text → Text
to_lower [] = []
to_lower (a ∷ t) = lower a ∷ to_lower t

pub to_lower_twice : (t : Text) → to_lower (to_lower t) ≡ to_lower t
unfolding to_lower
to_lower_twice [] = refl
to_lower_twice (a ∷ t) = ground (arith, to_lower_twice t)

-- Bytes that `lower` keeps.
abbrev pub IsLower : ℕ → Type 0
IsLower a = lower a ≡ a

pub to_lower_id : (t : Text) → All IsLower t → to_lower t ≡ t
unfolding to_lower
to_lower_id [] h = refl
to_lower_id (a ∷ t) (h, hs) = ground (arith, to_lower_id t hs)

-- The spaces of ASCII.
abbrev pub is_space : ℕ → Bool
is_space c = (leb 9 c && leb c 13) || c == 32

abbrev pub starts_empty : Text → Bool
starts_empty [] = true
starts_empty (c ∷ t) = false

unfoldable pub trim_left : Text → Text
trim_left [] = []
trim_left (c ∷ t) = let rest = trim_left t in if is_space c then rest else c ∷ t

unfoldable pub trim_right : Text → Text
trim_right [] = []
trim_right (c ∷ t) =
    let rest = trim_right t in if is_space c && starts_empty rest then [] else c ∷ rest

-- `strings.TrimSpace`
abbrev pub trim_space : Text → Text
trim_space t = trim_right (trim_left t)

-- `strings.HasPrefix` and `strings.TrimPrefix`.
unfoldable pub has_prefix : Text → Text → Bool
has_prefix [] t = true
has_prefix (p ∷ ps) [] = false
has_prefix (p ∷ ps) (c ∷ t) = p == c && has_prefix ps t

abbrev pub drop_bytes : Text → Text → Text
drop_bytes [] t = t
drop_bytes (p ∷ ps) [] = []
drop_bytes (p ∷ ps) (c ∷ t) = drop_bytes ps t

abbrev pub trim_prefix : Text → Text → Text
trim_prefix p t = if has_prefix p t then drop_bytes p t else t
