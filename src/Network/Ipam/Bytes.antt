-- ===== src/Network/Ipam/Bytes.antt =====
-- Masking a byte by 255 and by 0.
use Prim.Native.Nat.{bit_and, bit_or}
use herd.Common.{ℕ, zero, suc, ◌<◌, ◌≡◌, refl, Bool, true, ◌&&◌, ◌==◌, ==_iff, arith}

-- A test run on each byte.
module _ (test : ℕ → Bool) where
  passes : ℕ → Bool
  passes zero = true
  passes (suc k) = passes k && test k

  passes_at : (x k : ℕ) → passes k ≡ true → x < k → test x ≡ true
  unfolding passes
  passes_at x zero run below = absurd (omega arith)
  passes_at x (suc k) run below = ground (arith, passes_at x k)

  each_byte : passes 256 ≡ true → (x : ℕ) → x < 256 → test x ≡ true
  each_byte run x below = passes_at x 256 run below

pub bit_and-255 : (x : ℕ) → x < 256 → bit_and x 255 ≡ x
unfolding passes
bit_and-255 x below = (==_iff _ x).0 (each_byte (λ b. bit_and b 255 == b) refl x below)

pub bit_and-0 : (x : ℕ) → x < 256 → bit_and x 0 ≡ 0
unfolding passes
bit_and-0 x below = (==_iff _ 0).0 (each_byte (λ b. bit_and b 0 == 0) refl x below)

pub bit_or-255 : (x : ℕ) → x < 256 → bit_or x 255 ≡ 255
unfolding passes
bit_or-255 x below = (==_iff _ 255).0 (each_byte (λ b. bit_or b 255 == 255) refl x below)

pub bit_or-0 : (x : ℕ) → x < 256 → bit_or x 0 ≡ x
unfolding passes
bit_or-0 x below = (==_iff _ x).0 (each_byte (λ b. bit_or b 0 == b) refl x below)
