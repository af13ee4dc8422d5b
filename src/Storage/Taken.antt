-- ===== src/Storage/Taken.antt =====
-- What the parts of `Teardown` take away.
use herd.Common.{
  ℕ, zero, suc, ◌≡◌, refl, inl, inr, Bool, true, false, not, ◌||◌, Bool-cases, List, [], ◌∷◌, ◌++◌,
  if◌then◌else◌, arith,
}
use herd.Common.Text.{Text, text_eq}
use herd.Storage.Host.{
  File, Removal, take_away, detach, remove_pool, Reply, ok, absent, failed, Thing, loop, pool,
  is_ok, is_gone, takes, Os,
}
use herd.Storage.Teardown.{TeardownError, not_detached, take, remove_with_retry, detach_all, add_if}

abbrev pub has_text : Text → List Text → Bool
has_text d [] = false
has_text d (e ∷ es) = text_eq e d || has_text d es

pub snoc_not_nil : (es : List TeardownError) (e : TeardownError) → es ++ e ∷ [] ≡ [] → ⊥
snoc_not_nil [] e h = cc
snoc_not_nil (x ∷ es) e h = cc

pub ok_gone : (a : Reply) → not (is_ok a) ≡ false → is_gone a ≡ true
ok_gone (ok out) h = refl
ok_gone (absent out) h = refl
ok_gone (failed out) h = cc

module _ {W : Type 0} (os : Os W) where
  abbrev pub Result : Type 0
  Result = W × List TeardownError

  pub take-gone :
      (r : Removal) (w : W) (t : Thing)
      → (take os r w).1 ≡ true
      → takes r t ≡ true
      → os.has t (take os r w).0 ≡ false
  unfolding take
  take-gone r w t g h = os.run-removes r t w g h

  -- What is not there is not made.
  pub take-absent :
      (r : Removal) (w : W) (t : Thing) → os.has t w ≡ false → os.has t (take os r w).0 ≡ false
  unfolding take
  take-absent r w t h = ground (arith, os.run-only_makes (take_away r) t w)

  pub remove_with_retry-gone :
      (n : ℕ) (w : W)
      → (remove_with_retry os n w).1 ≡ true
      → os.has pool (remove_with_retry os n w).0 ≡ false
  unfolding remove_with_retry
  remove_with_retry-gone zero w h = cc
  remove_with_retry-gone (suc n) w h =
      ground
        (arith, take-gone remove_pool w pool, remove_with_retry-gone n (take os remove_pool w).0)

  pub remove_with_retry-absent :
      (n : ℕ) (w : W) (t : Thing)
      → os.has t w ≡ false
      → os.has t (remove_with_retry os n w).0 ≡ false
  unfolding remove_with_retry
  remove_with_retry-absent zero w t h = h
  remove_with_retry-absent (suc n) w t h =
      ground (
        arith,
        take-absent remove_pool w t h,
        remove_with_retry-absent n (take os remove_pool w).0 t,
      )

  pub add_if_nil :
      (b : Bool) (e : TeardownError) (r : Result)
      → (add_if os b e r).1 ≡ []
      → (b ≡ false) × (r.1 ≡ []) × ((add_if os b e r).0 ≡ r.0)
  unfolding add_if
  add_if_nil true e (w, errs) h = absurd (snoc_not_nil errs e h)
  add_if_nil false e r h = (refl, h, refl)

  pub detach_all-absent :
      (f : File) (ds : List Text) (w : W) (errs : List TeardownError) (t : Thing)
      → os.has t w ≡ false
      → os.has t (detach_all os f ds w errs).0 ≡ false
  unfolding detach_all
  detach_all-absent f [] w errs t h = h
  detach_all-absent f (d ∷ ds) w errs t h =
      detach_all-absent f ds (take os (detach d) w).0 _ t (take-absent (detach d) w t h)

  if_nil :
      (b : Bool) (errs : List TeardownError) (e : TeardownError)
      → (if b then errs else errs ++ e ∷ []) ≡ []
      → (b ≡ true) × (errs ≡ [])
  if_nil true errs e h = (refl, h)
  if_nil false errs e h = absurd (snoc_not_nil errs e h)

  pub detach_all_nil :
      (f : File) (ds : List Text) (w : W) (errs : List TeardownError)
      → (detach_all os f ds w errs).1 ≡ []
      → errs ≡ []
  unfolding detach_all
  detach_all_nil f [] w errs h = h
  detach_all_nil f (d ∷ ds) w errs h =
      (if_nil (take os (detach d) w).1 errs (not_detached f d)
        (detach_all_nil f ds (take os (detach d) w).0 _ h)).1

  pub detach_all-gone :
      (f : File) (ds : List Text) (w : W) (errs : List TeardownError) (d : Text)
      → (detach_all os f ds w errs).1 ≡ []
      → has_text d ds ≡ true
      → os.has (loop d) (detach_all os f ds w errs).0 ≡ false
  unfolding detach_all
  detach_all-gone f [] w errs d h m = cc
  detach_all-gone f (e ∷ ds) w errs d h m =
      let r = take os (detach e) w in
      let nils = detach_all_nil f ds r.0 _ h in
      let (gone, none_before) = if_nil r.1 errs (not_detached f e) nils in
      elim (Bool-cases (text_eq e d)) [
        | inl same ↦
            detach_all-absent f ds r.0 _ (loop d) (take-gone (detach e) w (loop d) gone same)
        | inr other ↦ detach_all-gone f ds r.0 _ d h (ground arith)
      ]
