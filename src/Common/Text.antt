-- ===== src/Common/Text.antt =====
-- Strings whose characters the code reads, as lists of bytes.
use Prim.Native.Char.{code}
use Prim.Native.String.{String}
use mathlib.Core.Path.{◌≡◌, refl}
use mathlib.Core.List.{List, [], ◌∷◌}
use mathlib.Core.Bool.{Bool, true, false, ◌&&◌}
use mathlib.Core.Logic.{◌↔◌}
use Prim.Native.Nat.{ℕ}
use native.Mathlib.Omega.{arith}
use herd.Common.Tests.{◌==◌}

abbrev pub Text : Type 0
Text = List ℕ

-- The bytes of a text in ASCII.
abbrev pub codes : String → Text
codes String.[] = []
codes (String.◌∷◌ c s) = code c ∷ codes s

unfoldable pub text_eq : Text → Text → Bool
text_eq [] [] = true
text_eq [] (b ∷ bs) = false
text_eq (a ∷ t) [] = false
text_eq (a ∷ t) (b ∷ bs) = a == b && text_eq t bs

abbrev pub is_empty : Text → Bool
is_empty [] = true
is_empty (a ∷ t) = false

pub text_eq_iff : (x y : Text) → (text_eq x y ≡ true) ↔ (x ≡ y)
unfolding text_eq
text_eq_iff [] [] = (λ h. refl, λ h. refl)
text_eq_iff [] (b ∷ bs) = (λ h. cc, λ h. cc)
text_eq_iff (a ∷ t) [] = (λ h. cc, λ h. cc)
text_eq_iff (a ∷ t) (b ∷ bs) =
    (λ h. ground (arith, text_eq_iff t bs), λ h. ground (arith, text_eq_iff t bs))
