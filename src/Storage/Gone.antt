-- ===== src/Storage/Gone.antt =====
-- What is gone when `Teardown` reports no error.
use herd.Common.{◌≡◌, inl, inr, true, false, not, Option-cases, List, [], Option, some, arith}
use herd.Common.Text.{Text}
use herd.Storage.Host.{
  state_dir, File, data_file, metadata_file, remove_all, take_away, list_loops, Thing, loop, pool,
  is_ok, within, Os,
}
use herd.Storage.Teardown.{
  pool_left, not_removed, not_listed, remove_with_retry, loop_devices_for_file, detach_all,
  detach_file, stop_containerd, drop_pool, drop_state, teardown,
}
use herd.Storage.Taken.{
  has_text, snoc_not_nil, ok_gone, Result, remove_with_retry-gone, remove_with_retry-absent,
  add_if_nil, detach_all-absent, detach_all_nil, detach_all-gone,
}

module _ {W : Type 0} (os : Os W) where
  -- The devices that losetup -j lists for a file.
  abbrev pub listed : File → W → Option (List Text)
  listed f w = (loop_devices_for_file os f w).1

  detach_file-absent :
      (f : File) (r : Result os) (t : Thing)
      → os.has t r.0 ≡ false
      → os.has t (detach_file os f r).0 ≡ false
  unfolding detach_file loop_devices_for_file
  detach_file-absent f (w, errs) t h =
      let still : os.has t (os.run (list_loops f) w).0 ≡ false =
        ground (arith, os.run-only_makes (list_loops f) t w) in
      elim (Option-cases (listed f w)) [
        | inl e ↦ ground arith
        | inr (ds, e) ↦
            ground (arith, detach_all-absent os f ds (os.run (list_loops f) w).0 errs t still)
      ]

  detach_file_nil :
      (f : File) (r : Result os)
      → (detach_file os f r).1 ≡ []
      → (r.1 ≡ [])
        × (ds : List Text) × (listed f r.0 ≡ some ds)
        × ((d : Text) → has_text d ds ≡ true → os.has (loop d) (detach_file os f r).0 ≡ false)
  unfolding detach_file loop_devices_for_file
  detach_file_nil f (w, errs) h = elim (Option-cases (listed f w)) [
    | inl e ↦ absurd (snoc_not_nil errs (not_listed f) (ground arith))
    | inr (ds, e) ↦
        let w1 = (os.run (list_loops f) w).0 in
        let nil : (detach_all os f ds w1 errs).1 ≡ [] = ground arith in
        (
          detach_all_nil os f ds w1 errs nil,
          ds,
          e,
          λ d m. ground (arith, detach_all-gone os f ds w1 errs d nil m),
        )
  ]

  drop_state_nil :
      (r : Result os)
      → (drop_state os r).1 ≡ []
      → (r.1 ≡ [])
        × ((t : Thing) → os.has t r.0 ≡ false → os.has t (drop_state os r).0 ≡ false)
        × ((t : Thing) → within state_dir t ≡ true → os.has t (drop_state os r).0 ≡ false)
  unfolding drop_state
  drop_state_nil (w, errs) h =
      let (w1, a) = os.run (take_away (remove_all state_dir)) w in
      let (okay, nil, same) = add_if_nil os (not (is_ok a)) not_removed (w1, errs) h in
      (
        nil,
        (λ t k. ground (arith, same, os.run-only_makes (take_away (remove_all state_dir)) t w)),
        λ t k. ground (arith, same, ok_gone a, os.run-removes (remove_all state_dir) t w),
      )

  drop_pool_nil :
      (r : Result os)
      → (drop_pool os r).1 ≡ []
      → (r.1 ≡ [])
        × ((t : Thing) → os.has t r.0 ≡ false → os.has t (drop_pool os r).0 ≡ false)
        × (os.has pool (drop_pool os r).0 ≡ false)
  unfolding drop_pool
  drop_pool_nil (w, errs) h =
      let (w1, gone) = remove_with_retry os 5 w in
      let (okay, nil, same) = add_if_nil os (not gone) pool_left (w1, errs) h in
      (
        nil,
        (λ t k. ground (arith, same, remove_with_retry-absent os 5 w t k)),
        ground (arith, same, remove_with_retry-gone os 5 w),
      )

  -- The devices listed for a file when the teardown comes to it are gone in the end.
  abbrev pub Detached : File → W → W → Type 0
  Detached f at after =
      (ds : List Text) × (listed f at ≡ some ds)
      × ((d : Text) → has_text d ds ≡ true → os.has (loop d) after ≡ false)

  detach_file-Detached :
      (f : File) (r : Result os) (after : W)
      → (detach_file os f r).1 ≡ []
      → ((d : Text)
          → os.has (loop d) (detach_file os f r).0 ≡ false
          → os.has (loop d) after ≡ false)
      → (r.1 ≡ []) × Detached f r.0 after
  detach_file-Detached f r after h later =
      let (nil, ds, e, gone) = detach_file_nil f r h in (nil, (ds, e, λ d m. later d (gone d m)))

  -- The world when the loop devices are listed.
  abbrev pub before_loops : W → W
  before_loops w = (drop_pool os (stop_containerd os w)).0

  abbrev pub between_loops : W → W
  between_loops w = (detach_file os data_file (drop_pool os (stop_containerd os w))).0

  -- When `Teardown` reports no error, the thin-pool is gone, everything in the state
  -- directory and the directory itself are gone, and of both files all the loop devices that losetup
  -- listed for them are detached.
  pub teardown-gone :
      (w : W)
      → (teardown os w).1 ≡ []
      → (os.has pool (teardown os w).0 ≡ false)
        × ((t : Thing) → within state_dir t ≡ true → os.has t (teardown os w).0 ≡ false)
        × Detached data_file (before_loops w) (teardown os w).0
        × Detached metadata_file (between_loops w) (teardown os w).0
  unfolding teardown
  teardown-gone w h =
      let r1 = stop_containerd os w in
      let r2 = drop_pool os r1 in
      let r3 = detach_file os data_file r2 in
      let r4 = detach_file os metadata_file r3 in
      let (nil4, keep5, state_gone) = drop_state_nil r4 h in
      let later4 : (d : Text)
          → os.has (loop d) r4.0 ≡ false
          → os.has (loop d) (drop_state os r4).0 ≡ false =
        λ d k. keep5 (loop d) k in
      let (nil3, metadata_gone) = detach_file-Detached metadata_file r3 _ nil4 later4 in
      let later3 : (t : Thing) → os.has t r3.0 ≡ false → os.has t (drop_state os r4).0 ≡ false =
        λ t k. keep5 t (detach_file-absent metadata_file r3 t k) in
      let (nil2, data_gone) = detach_file-Detached data_file r2 _ nil3 (λ d k. later3 (loop d) k) in
      let (nil1, keep2, pool_gone) = drop_pool_nil r1 nil2 in
      let later2 : (t : Thing) → os.has t r2.0 ≡ false → os.has t (drop_state os r4).0 ≡ false =
        λ t k. later3 t (detach_file-absent data_file r2 t k) in
      (later2 pool pool_gone, state_gone, data_gone, metadata_gone)
