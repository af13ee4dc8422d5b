-- ===== src/Storage/Kept.antt =====
-- That `Bootstrap` removes nothing that was there.
use herd.Common.{
  ℕ, ◌*◌, ◌≡◌, refl, inl, inr, true, false, Option-cases, List, [], ◌∷◌, Option, none, some, All,
  arith,
}
use herd.Common.Text.{Text, text_eq_iff}
use herd.Common.Split.{trim_space}
use herd.Storage.Host.{
  Dir, state_dir, devmapper_dir, containerd_dir, File, data_file, metadata_file, Removal, Op,
  take_away, mkdir_all, create, attach, associated, truncate, block_size, create_pool, pool_status,
  reload_pool, write_config, start_containerd, Thing, file, loop, config, pool, removes, output,
  thing_eq, file_eq, Os,
}
use herd.Storage.Bootstrap.{
  Failure, Frame, Step, create_sparse_file, setup_loop_device, thin_pool_exists, get_blockdev_size,
  size_of, make_dir, make_file, make_loop, make_pool, make_config, launch_containerd, run_steps,
  bootstrap_steps, clean_up, finish, bootstrap, gib, table_of,
}
use herd.Storage.Rollback.{undone}

file_eq→eq : (f g : File) → file_eq f g ≡ true → f ≡ g
file_eq→eq data_file data_file h = refl
file_eq→eq metadata_file metadata_file h = refl
file_eq→eq f g h = cc

thing_eq-file : (f : File) (t : Thing) → thing_eq (file f) t ≡ true → t ≡ file f
thing_eq-file f (file g) h = ground (arith, file_eq→eq f g h)
thing_eq-file f t h = cc

thing_eq-loop : (d : Text) (t : Thing) → thing_eq (loop d) t ≡ true → t ≡ loop d
thing_eq-loop d (loop e) h = ground (arith, (text_eq_iff d e).0 h)
thing_eq-loop d t h = cc

thing_eq-pool : (t : Thing) → thing_eq pool t ≡ true → t ≡ pool
thing_eq-pool pool h = refl
thing_eq-pool t h = cc

module _ {W : Type 0} (os : Os W) (t : Thing) where
  -- It is there, and nothing on the cleanup stack removes it.
  abbrev Kept : Frame W → Type 0
  Kept s = (os.has t s.world ≡ true) × (undone os t s.cleanup ≡ false)

  abbrev Keeps : Step W → Type 0
  Keeps k = (s : Frame W) → Kept s → Kept (k s).0

  still :
      (op : Op) (w : W) → removes op t ≡ false → os.has t w ≡ true → os.has t (os.run op w).0 ≡ true
  still op w n h = os.run-only_removes op t w n h

  make_dir-Kept : (d : Dir) → Keeps (make_dir os d)
  unfolding make_dir
  make_dir-Kept d s (h, u) = ground (arith, still (mkdir_all d) s.world refl h, os.tree d t s.world)

  make_file-Kept : (f : File) (n : ℕ) → Keeps (make_file os f n)
  unfolding make_file create_sparse_file
  make_file-Kept f n s (h, u) =
      let made = still (create f) s.world refl h in
      ground (
        arith,
        thing_eq-file f t,
        made,
        still (truncate f n) (os.run (create f) s.world).0 refl made,
      )

  make_loop-Kept : (f : File) → Keeps (make_loop os f)
  unfolding make_loop setup_loop_device
  make_loop-Kept data_file s (h, u) =
      let asked = still (associated data_file) s.world refl h in
      let w1 = (os.run (associated data_file) s.world).0 in
      ground (
        arith,
        asked,
        still (attach data_file) w1 refl asked,
        os.attach-fresh data_file w1,
        thing_eq-loop (trim_space (output (os.run (attach data_file) w1).1)) t,
      )
  make_loop-Kept metadata_file s (h, u) =
      let asked = still (associated metadata_file) s.world refl h in
      let w1 = (os.run (associated metadata_file) s.world).0 in
      ground (
        arith,
        asked,
        still (attach metadata_file) w1 refl asked,
        os.attach-fresh metadata_file w1,
        thing_eq-loop (trim_space (output (os.run (attach metadata_file) w1).1)) t,
      )

  make_pool-Kept : Keeps (make_pool os)
  unfolding make_pool thin_pool_exists get_blockdev_size
  make_pool-Kept s (h, u) =
      let asked = still pool_status s.world refl h in
      let (w1, r1) = os.run pool_status s.world in
      let sized = still (block_size s.data_loop) w1 refl asked in
      let (w2, r2) = os.run (block_size s.data_loop) w1 in
      let reloaded = still reload_pool w1 refl asked in
      elim (Option-cases (size_of os r2)) [
        | inl e ↦ ground (arith, sized, reloaded)
        | inr (n, e) ↦ ground (
          arith,
          reloaded,
          still (create_pool (table_of os n s)) w2 refl sized,
          os.status-has s.world,
          thing_eq-pool t,
        )
      ]

  make_config-Kept : thing_eq config t ≡ false → Keeps (make_config os)
  unfolding make_config
  make_config-Kept n s (h, u) = ground (arith, still write_config s.world refl h)

  launch_containerd-Kept : Keeps (launch_containerd os)
  unfolding launch_containerd
  launch_containerd-Kept s (h, u) = ground (arith, still start_containerd s.world refl h)

  run_steps-Kept : (ks : List (Step W)) → All Keeps ks → Keeps (run_steps os ks)
  unfolding run_steps
  run_steps-Kept [] a s k = k
  run_steps-Kept (l ∷ ks) (a, as_) s k =
      ground (arith, a s k, run_steps-Kept ks as_ (l s).0 (a s k))

  clean_up_keeps :
      (rs : List Removal) (w : W)
      → os.has t w ≡ true
      → undone os t rs ≡ false
      → os.has t (clean_up os rs w) ≡ true
  unfolding clean_up
  clean_up_keeps [] w h u = h
  clean_up_keeps (r ∷ rs) w h u =
      ground (arith, still (take_away r) w, clean_up_keeps rs (os.run (take_away r) w).0)

  finish_keeps : (r : Frame W × Option Failure) → Kept r.0 → os.has t (finish os r).0 ≡ true
  unfolding finish
  finish_keeps (s, none) (h, u) = h
  finish_keeps (s, some e) (h, u) = clean_up_keeps s.cleanup s.world h u

  -- Whether it fails or not, `Bootstrap` removes nothing that was there before, but perhaps the
  -- configuration file, which it overwrites.
  pub bootstrap-keeps :
      (w : W) → thing_eq config t ≡ false → os.has t w ≡ true → os.has t (bootstrap os w).0 ≡ true
  unfolding bootstrap
  bootstrap-keeps w n h = finish_keeps _ (
      run_steps-Kept (bootstrap_steps os)
        (
          make_dir-Kept state_dir,
          (
            make_dir-Kept devmapper_dir,
            (
              make_file-Kept data_file (20 * gib os),
              (
                make_file-Kept metadata_file (2 * gib os),
                (
                  make_loop-Kept data_file,
                  (
                    make_loop-Kept metadata_file,
                    (
                      make_pool-Kept,
                      (
                        make_dir-Kept containerd_dir,
                        (make_config-Kept n, (launch_containerd-Kept, tt)),
                      ),
                    ),
                  ),
                ),
              ),
            ),
          ),
        )
        (record { world = w; cleanup = []; data_loop = []; metadata_loop = [] }) (h, refl))
