-- ===== src/Storage/Rollback.antt =====
-- What a `Bootstrap` that fails leaves behind.
use herd.Common.{
  ℕ, ◌*◌, ◌≡◌, refl, inl, inr, Bool, true, false, not, ◌&&◌, ◌||◌, Option-cases, List, [], ◌∷◌,
  Option, none, some, arith,
}
use herd.Storage.Host.{
  Dir, state_dir, devmapper_dir, containerd_dir, File, data_file, metadata_file, Removal, take_away,
  takes, mkdir_all, create, attach, associated, truncate, block_size, create_pool, pool_status,
  reload_pool, write_config, start_containerd, Thing, dir, file, config, is_ok, is_gone, thing_eq,
  within, Os,
}
use herd.Storage.Bootstrap.{
  Failure, Frame, Step, create_sparse_file, setup_loop_device, thin_pool_exists, get_blockdev_size,
  size_of, make_dir, make_file, make_loop, make_pool, make_config, launch_containerd, run_steps,
  bootstrap_steps, clean_up, finish, bootstrap, gib, table_of,
}

within_self : (d : Dir) (t : Thing) → thing_eq (dir d) t ≡ true → within d t ≡ true
within_self state_dir (dir e) h = refl
within_self devmapper_dir (dir devmapper_dir) h = refl
within_self containerd_dir (dir containerd_dir) h = refl
within_self d t h = cc

module _ {W : Type 0} (os : Os W) (t : Thing) where
  -- Something on the cleanup stack removes it.
  abbrev pub undone : List Removal → Bool
  undone [] = false
  undone (r ∷ rs) = takes r t || undone rs

  -- No file of the question is one that could not be truncated or written.
  abbrev pub Sparse : Type 0
  Sparse =
      (f : File) (n : ℕ) (w : W)
      → (thing_eq (file f) t && not (is_ok (os.run (truncate f n) w).1)) ≡ false

  abbrev pub Written : Type 0
  Written = (w : W) → (thing_eq config t && not (is_ok (os.run write_config w).1)) ≡ false

  -- A call that should take it away leaves nothing of it.
  abbrev pub CleansUp : Type 0
  CleansUp = (r : Removal) (w : W) → takes r t ≡ true → is_gone (os.run (take_away r) w).1 ≡ true

  clean_up_left :
      (rs : List Removal) (w : W)
      → CleansUp
      → os.has t (clean_up os rs w) ≡ true
      → (os.has t w && not (undone rs)) ≡ true
  unfolding clean_up
  clean_up_left [] w cl h = ground arith
  clean_up_left (r ∷ rs) w cl h = ground (
    arith,
    cl r w,
    clean_up_left rs (os.run (take_away r) w).0 cl,
    os.run-removes r t w,
    os.run-only_makes (take_away r) t w,
  )

module _ {W : Type 0} (os : Os W) (t : Thing) (w0 : W) where
  -- It is there only if it was there before or is on the cleanup stack.
  abbrev pub Covered : Frame W → Type 0
  Covered s = os.has t s.world ≡ true → (os.has t w0 || undone os t s.cleanup) ≡ true

  abbrev Keeps : Step W → Type 0
  Keeps k = (s : Frame W) → Covered s → Covered (k s).0

  make_dir-Covered : (d : Dir) → Keeps (make_dir os d)
  unfolding make_dir
  make_dir-Covered d s c h =
      ground (arith, within_self d t, os.run-only_makes (mkdir_all d) t s.world)

  make_file-Covered : (f : File) (n : ℕ) → Sparse os t → Keeps (make_file os f n)
  unfolding make_file create_sparse_file
  make_file-Covered f n sp s c h = ground (
    arith,
    sp f n (os.run (create f) s.world).0,
    os.run-only_makes (create f) t s.world,
    os.run-only_makes (truncate f n) t (os.run (create f) s.world).0,
  )

  make_loop-Covered : (f : File) → Keeps (make_loop os f)
  unfolding make_loop setup_loop_device
  make_loop-Covered data_file s c h = ground (
    arith,
    os.run-only_makes (associated data_file) t s.world,
    os.run-only_makes (attach data_file) t (os.run (associated data_file) s.world).0,
  )
  make_loop-Covered metadata_file s c h = ground (
    arith,
    os.run-only_makes (associated metadata_file) t s.world,
    os.run-only_makes (attach metadata_file) t (os.run (associated metadata_file) s.world).0,
  )

  make_pool-Covered : Keeps (make_pool os)
  unfolding make_pool thin_pool_exists get_blockdev_size
  make_pool-Covered s c h =
      let w1 = (os.run pool_status s.world).0 in
      let (w2, r2) = os.run (block_size s.data_loop) w1 in
      let status = os.run-only_makes pool_status t s.world in
      let sized = os.run-only_makes (block_size s.data_loop) t w1 in
      let reload = os.run-only_makes reload_pool t w1 in
      elim (Option-cases (size_of os r2)) [
        | inl e ↦ ground (arith, status, sized, reload)
        | inr (n, e) ↦
            ground
              (arith, status, sized, reload, os.run-only_makes (create_pool (table_of os n s)) t w2)
      ]

  make_config-Covered : Written os t → Keeps (make_config os)
  unfolding make_config
  make_config-Covered wr s c h =
      ground (arith, wr s.world, os.run-only_makes write_config t s.world)

  -- Only the last step leaves something that it made to itself, when it does not fail.
  launch_containerd-Covered :
      (s : Frame W) (e : Failure)
      → Covered s
      → (launch_containerd os s).1 ≡ some e
      → Covered (launch_containerd os s).0
  unfolding launch_containerd
  launch_containerd-Covered s e c f h = ground (arith, os.run-only_makes start_containerd t s.world)

  -- What every step but the last keeps, and the last when it fails.
  abbrev Fine : List (Step W) → Type 0
  Fine [] = Unit
  Fine (k ∷ []) = (s : Frame W) (e : Failure) → Covered s → (k s).1 ≡ some e → Covered (k s).0
  Fine (k ∷ l ∷ ks) = Keeps k × Fine (l ∷ ks)

  run_steps-Covered :
      (ks : List (Step W)) (s : Frame W) (e : Failure)
      → Fine ks
      → Covered s
      → (run_steps os ks s).1 ≡ some e
      → Covered (run_steps os ks s).0
  unfolding run_steps
  run_steps-Covered [] s e k c f = cc
  run_steps-Covered (k ∷ []) s e fine c f = elim (Option-cases (k s).1) [
    | inl d ↦ ground arith
    | inr (x, d) ↦ ground (arith, fine s x c d)
  ]
  run_steps-Covered (k ∷ l ∷ ks) s e (keep, fine) c f = elim (Option-cases (k s).1) [
    | inl d ↦ ground (arith, run_steps-Covered (l ∷ ks) (k s).0 e fine (keep s c))
    | inr (x, d) ↦ ground (arith, keep s c)
  ]

  bootstrap_steps-Fine : Sparse os t → Written os t → Fine (bootstrap_steps os)
  bootstrap_steps-Fine sp wr = (
    make_dir-Covered state_dir,
    (
      make_dir-Covered devmapper_dir,
      (
        make_file-Covered data_file (20 * gib os) sp,
        (
          make_file-Covered metadata_file (2 * gib os) sp,
          (
            make_loop-Covered data_file,
            (
              make_loop-Covered metadata_file,
              (
                make_pool-Covered,
                (
                  make_dir-Covered containerd_dir,
                  (make_config-Covered wr, launch_containerd-Covered),
                ),
              ),
            ),
          ),
        ),
      ),
    ),
  )

finish_failed :
    {W : Type 0} (os : Os W) (r : Frame W × Option Failure) (e : Failure)
    → (finish os r).1 ≡ some e
    → (r.1 ≡ some e) × ((finish os r).0 ≡ clean_up os r.0.cleanup r.0.world)
unfolding finish
finish_failed os (s, none) e f = cc
finish_failed os (s, some x) e f = (f, refl)

-- Nothing is left by a `Bootstrap` that fails that was not there before, where the clean-up succeeds
-- at what it takes away; for a sparse file also that it could be truncated once it was made, and for
-- the configuration that it could be written.
pub bootstrap_failed-clean :
    {W : Type 0} (os : Os W) (t : Thing) (w : W) (e : Failure)
    → CleansUp os t
    → Sparse os t
    → Written os t
    → (bootstrap os w).1 ≡ some e
    → os.has t (bootstrap os w).0 ≡ true
    → os.has t w ≡ true
unfolding bootstrap finish
bootstrap_failed-clean os t w e cl sp wr f h =
    let start : Frame _ = record { world = w; cleanup = []; data_loop = []; metadata_loop = [] } in
    let r = run_steps os (bootstrap_steps os) start in
    let (failing, left) = finish_failed os r e f in
    let covered =
      run_steps-Covered os t w (bootstrap_steps os) start e (bootstrap_steps-Fine os t w sp wr)
        (λ there. ground arith) failing in
    ground (arith, left, covered, clean_up_left os t r.0.cleanup r.0.world cl)
