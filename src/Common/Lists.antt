-- ===== src/Common/Lists.antt =====
-- Lists measured and indexed by native numbers, and weighted sums over a list.
use Prim.Native.Nat.{ℕ, zero, suc, ◌+◌, ◌≤◌}
use mathlib.Core.Path.{◌≡◌, refl, ap}
use mathlib.Core.Logic.{◌≢◌, ◌⊎◌, inl, inr}
use mathlib.Core.List.{List, [], ◌∷◌, ◌++◌}
use mathlib.Core.Option.{Option, none, some}
use native.Mathlib.Omega.{arith}

module _ {ℓ} {A : Type ℓ} where
  abbrev pub length : List A → ℕ
  length [] = 0
  length (x ∷ xs) = suc (length xs)

  abbrev pub get_elem? : List A → ℕ → Option A
  get_elem? [] i = none
  get_elem? (x ∷ xs) zero = some x
  get_elem? (x ∷ xs) (suc i) = get_elem? xs i

  abbrev pub set : List A → ℕ → A → List A
  set [] i v = []
  set (x ∷ xs) zero v = v ∷ xs
  set (x ∷ xs) (suc i) v = x ∷ set xs i v

  pub length-append : (xs ys : List A) → length (xs ++ ys) ≡ length xs + length ys
  length-append [] ys = omega arith
  length-append (x ∷ xs) ys = omega (arith, length-append xs ys)

  pub get_elem?-set_ne :
      (xs : List A) (i j : ℕ) (v : A) → i ≢ j → get_elem? (set xs i v) j ≡ get_elem? xs j
  get_elem?-set_ne [] i j v h = refl
  get_elem?-set_ne (x ∷ xs) zero zero v h = absurd (h refl)
  get_elem?-set_ne (x ∷ xs) zero (suc j) v h = refl
  get_elem?-set_ne (x ∷ xs) (suc i) zero v h = refl
  get_elem?-set_ne (x ∷ xs) (suc i) (suc j) v h = get_elem?-set_ne xs i j v (λ e. h (ap suc e))

  pub get_elem?-set_self :
      (xs : List A) (i : ℕ) (v x : A) → get_elem? xs i ≡ some x → get_elem? (set xs i v) i ≡ some v
  get_elem?-set_self [] i v x h = cc
  get_elem?-set_self (y ∷ xs) zero v x h = refl
  get_elem?-set_self (y ∷ xs) (suc i) v x h = get_elem?-set_self xs i v x h

-- The sum of the weights of a list's entries; with weights 0 and 1 it counts entries.
module _ {ℓ} {A : Type ℓ} (w : A → ℕ) where
  abbrev pub total : List A → ℕ
  total [] = 0
  total (x ∷ xs) = w x + total xs

  pub total-append : (xs ys : List A) → total (xs ++ ys) ≡ total xs + total ys
  total-append [] ys = omega arith
  total-append (x ∷ xs) ys = omega (arith, total-append xs ys)

  pub total-set :
      (xs : List A) (i : ℕ) (x y : A)
      → get_elem? xs i ≡ some x
      → total (set xs i y) + w x ≡ total xs + w y
  total-set [] i x y h = cc
  total-set (z ∷ xs) zero x y h = ground arith
  total-set (z ∷ xs) (suc i) x y h = omega (arith, total-set xs i x y h)

  -- One entry weighs no more than the whole list.
  pub weight-le-total : (xs : List A) (i : ℕ) (x : A) → get_elem? xs i ≡ some x → w x ≤ total xs
  weight-le-total [] i x h = cc
  weight-le-total (z ∷ xs) zero x h = ground arith
  weight-le-total (z ∷ xs) (suc i) x h = omega (arith, weight-le-total xs i x h)

  -- Nor do two entries.
  pub two-weights-le-total :
      (xs : List A) (i j : ℕ) (x y : A)
      → i ≢ j
      → get_elem? xs i ≡ some x
      → get_elem? xs j ≡ some y
      → w x + w y ≤ total xs
  two-weights-le-total [] i j x y n h k = cc
  two-weights-le-total (z ∷ xs) zero zero x y n h k = absurd (n refl)
  two-weights-le-total (z ∷ xs) zero (suc j) x y n h k = ground (arith, weight-le-total xs j y k)
  two-weights-le-total (z ∷ xs) (suc i) zero x y n h k = ground (arith, weight-le-total xs i x h)
  two-weights-le-total (z ∷ xs) (suc i) (suc j) x y n h k =
      omega (arith, two-weights-le-total xs i j x y (λ e. n (ap suc e)) h k)

module _ {ℓ} {A : Type ℓ} where
  -- An entry of a list with one more at its end is an old one or the last.
  pub get_elem?-snoc :
      (xs : List A) (y x : A) (i : ℕ)
      → get_elem? (xs ++ y ∷ []) i ≡ some x
      → (get_elem? xs i ≡ some x) ⊎ (x ≡ y)
  get_elem?-snoc [] y x zero h = inr (ground arith)
  get_elem?-snoc [] y x (suc i) h = cc
  get_elem?-snoc (z ∷ xs) y x zero h = inl h
  get_elem?-snoc (z ∷ xs) y x (suc i) h = get_elem?-snoc xs y x i h

  -- An entry of a list with one place written is the written one or an old one.
  pub get_elem?-set :
      (xs : List A) (y x : A) (i j : ℕ)
      → get_elem? (set xs i y) j ≡ some x
      → (get_elem? xs j ≡ some x) ⊎ (x ≡ y)
  get_elem?-set [] y x i j h = cc
  get_elem?-set (z ∷ xs) y x zero zero h = inr (ground arith)
  get_elem?-set (z ∷ xs) y x zero (suc j) h = inl h
  get_elem?-set (z ∷ xs) y x (suc i) zero h = inl h
  get_elem?-set (z ∷ xs) y x (suc i) (suc j) h = get_elem?-set xs y x i j h

  abbrev pub replicate : ℕ → A → List A
  replicate zero a = []
  replicate (suc n) a = a ∷ replicate n a

-- A predicate of every entry.
abbrev pub All {ℓ κ} : {A : Type ℓ} → (A → Type κ) → List A → Type κ
All P [] = Unit
All P (x ∷ xs) = P x × All P xs
