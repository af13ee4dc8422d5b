-- ===== src/Common/Maps.antt =====
-- Go maps as association lists. Keys are numbers: the code only compares the strings and the
-- ports that it uses as keys.
use Prim.Native.Nat.{ℕ, ◌+◌, ◌≤◌, ◌<◌}
use mathlib.Core.Path.{◌≡◌, refl}
use mathlib.Core.List.{List, [], ◌∷◌}
use mathlib.Core.Bool.{true, false}
use mathlib.Core.Option.{Option, none, some}
use native.Mathlib.Omega.{arith}
use herd.Common.Tests.{◌==◌, if◌then◌else◌, one}
use herd.Common.Lists.{total}

abbrev pub Map : Type 0 → Type 0
Map V = List (ℕ × V)

pub if_same {ℓ} : {A : Type ℓ} → (k : ℕ) (x y : A) → (if k == k then x else y) ≡ x
if_same k x y = grind arith

module _ {V : Type 0} where
  unfoldable pub lookup : ℕ → Map V → Option V
  lookup k [] = none
  lookup k ((j, v) ∷ m) = if j == k then some v else lookup k m

  -- `m[k] = v`
  unfoldable pub insert : ℕ → V → Map V → Map V
  insert k v [] = (k, v) ∷ []
  insert k v ((j, u) ∷ m) = if j == k then (k, v) ∷ m else (j, u) ∷ insert k v m

  -- `delete(m, k)`
  unfoldable pub delete : ℕ → Map V → Map V
  delete k [] = []
  delete k ((j, u) ∷ m) = let rest = delete k m in if j == k then rest else (j, u) ∷ rest

  pub lookup-insert :
      (k j : ℕ) (v : V) (m : Map V)
      → lookup j (insert k v m) ≡ (if k == j then some v else lookup j m)
  unfolding lookup insert
  lookup-insert k j v [] = refl
  lookup-insert k j v ((i, u) ∷ m) = ground (arith, lookup-insert k j v m)

  pub lookup-delete :
      (k j : ℕ) (m : Map V) → lookup j (delete k m) ≡ (if k == j then none else lookup j m)
  unfolding lookup delete
  lookup-delete k j [] = ground arith
  lookup-delete k j ((i, u) ∷ m) = ground (arith, lookup-delete k j m)

  abbrev pub has_key : ℕ → ℕ × V → ℕ
  has_key k (j, v) = one (j == k)

  -- How often a key is bound: 0 or 1 in a map that `insert` and `delete` built.
  abbrev pub bound : ℕ → Map V → ℕ
  bound k = total (has_key k)

  pub lookup-none : (k : ℕ) (m : Map V) → lookup k m ≡ none → bound k m ≡ 0
  unfolding lookup
  lookup-none k [] h = refl
  lookup-none k ((j, v) ∷ m) h = ground (arith, lookup-none k m)

  pub lookup-some : (k : ℕ) (m : Map V) (v : V) → lookup k m ≡ some v → 0 < bound k m
  unfolding lookup
  lookup-some k [] v h = cc
  lookup-some k ((j, u) ∷ m) v h = ground (arith, lookup-some k m v)

  pub unbound : (k : ℕ) (m : Map V) → bound k m ≡ 0 → lookup k m ≡ none
  unfolding lookup
  unbound k [] h = refl
  unbound k ((j, u) ∷ m) h = ground (arith, unbound k m)

  pub bound-insert :
      (k j : ℕ) (v : V) (m : Map V)
      → lookup k m ≡ none
      → bound j (insert k v m) ≡ bound j m + one (k == j)
  unfolding lookup insert
  bound-insert k j v [] h = ground arith
  bound-insert k j v ((i, u) ∷ m) h = ground (arith, bound-insert k j v m)

  pub bound-insert_le : (k j : ℕ) (v : V) (m : Map V) → bound j m ≤ 1 → bound j (insert k v m) ≤ 1
  unfolding insert
  bound-insert_le k j v [] h = ground arith
  bound-insert_le k j v ((i, u) ∷ m) h =
      ground (arith, bound-insert_le k j v m, bound-insert_zero k j v m)
    where
      bound-insert_zero :
          (k j : ℕ) (v : V) (m : Map V)
          → (k == j) ≡ false
          → bound j m ≡ 0
          → bound j (insert k v m) ≡ 0
      bound-insert_zero k j v [] n z = ground arith
      bound-insert_zero k j v ((i, u) ∷ m) n z = ground (arith, bound-insert_zero k j v m)

  pub bound-delete :
      (k j : ℕ) (m : Map V) → bound j (delete k m) ≡ (if k == j then 0 else bound j m)
  unfolding delete
  bound-delete k j [] = ground arith
  bound-delete k j ((i, u) ∷ m) = ground (arith, bound-delete k j m)

  module _ (w : ℕ × V → ℕ) where
    pub total-insert :
        (k : ℕ) (v : V) (m : Map V)
        → lookup k m ≡ none
        → total w (insert k v m) ≡ total w m + w (k, v)
    unfolding lookup insert
    total-insert k v [] h = ground arith
    total-insert k v ((i, u) ∷ m) h = ground (arith, total-insert k v m)

    pub total-delete_unbound :
        (k : ℕ) (m : Map V) → bound k m ≡ 0 → total w (delete k m) ≡ total w m
    unfolding delete
    total-delete_unbound k [] h = refl
    total-delete_unbound k ((i, u) ∷ m) h = ground (arith, total-delete_unbound k m)

    pub total-delete :
        (k : ℕ) (v : V) (m : Map V)
        → bound k m ≤ 1
        → lookup k m ≡ some v
        → total w (delete k m) + w (k, v) ≡ total w m
    unfolding lookup delete
    total-delete k v [] b h = cc
    total-delete k v ((i, u) ∷ m) b h =
        ground (arith, total-delete k v m, total-delete_unbound k m, ==_eq)
      where
        ==_eq : (i == k) ≡ true → i ≡ k
        ==_eq h = ground arith

  pub delete_unbound : (k : ℕ) (m : Map V) → lookup k m ≡ none → delete k m ≡ m
  unfolding lookup delete
  delete_unbound k [] h = refl
  delete_unbound k ((i, u) ∷ m) h = ground (arith, delete_unbound k m)

  -- Deleting what was inserted gives the map back.
  pub delete-insert : (k : ℕ) (v : V) (m : Map V) → lookup k m ≡ none → delete k (insert k v m) ≡ m
  unfolding lookup insert delete
  delete-insert k v [] h = ground arith
  delete-insert k v ((i, u) ∷ m) h = ground (arith, delete-insert k v m)
