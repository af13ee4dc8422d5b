-- ===== src/Guest/Mounted.antt =====
-- What is mounted when the guest agent goes on.
use herd.Common.{ℕ, zero, suc, ◌≡◌, refl, true, List, [], ◌∷◌, ◌++◌, none, arith, All}
use herd.Common.Text.{Text, codes}
use herd.Guest.Kernel.{
  Mount, mkdir_all, stat, remove, symlink, mount, Answer, done, busy, missing, failed, is_done,
  done_or_busy, Kernel,
}
use herd.Guest.Mounts.{
  Result, Step, run_steps, mount_base, mount_once, mount_retry, replace_symlink, mount_of,
  base_mounts, base_steps, mount_base_filesystems, wait_for, link_ptmx, container_root, devpts,
  mount_devpts, bind_root, mount_root, container_mounts, container_links,
  mount_container_filesystems,
}

done→done_or_busy : (a : Answer) → is_done a ≡ true → done_or_busy a ≡ true
done→done_or_busy done h = refl
done→done_or_busy busy h = refl
done→done_or_busy missing h = cc
done→done_or_busy failed h = cc

module _ {W : Type 0} (k : Kernel W) (t : Text) where
  abbrev pub Keeps : (W → Result W) → Type 0
  Keeps s = (w : W) → k.is_mounted t w ≡ true → k.is_mounted t (s w).0 ≡ true

  abbrev pub Ensures : (W → Result W) → Type 0
  Ensures s = (w : W) → (s w).1 ≡ none → k.is_mounted t (s w).0 ≡ true

  run_steps-Keeps : (ss : List (Step k)) → All Keeps ss → Keeps (run_steps k ss)
  unfolding run_steps
  run_steps-Keeps [] a w h = h
  run_steps-Keeps (s ∷ ss) (a, as_) w h =
      ground (arith, a w h, run_steps-Keeps ss as_ (s w).0 (a w h))

  -- The step at a place of the list ensures it.
  abbrev EnsuresAt : ℕ → List (Step k) → Type 0
  EnsuresAt i [] = ⊥
  EnsuresAt zero (s ∷ ss) = Ensures s
  EnsuresAt (suc i) (s ∷ ss) = EnsuresAt i ss

  -- When all steps succeed, what one of them ensures is mounted in the end.
  run_steps-Ensures :
      (i : ℕ) (ss : List (Step k)) → EnsuresAt i ss → All Keeps ss → Ensures (run_steps k ss)
  unfolding run_steps
  run_steps-Ensures i [] h a w ok = absurd h
  run_steps-Ensures zero (s ∷ ss) h (a, as_) w ok =
      ground (arith, h w, run_steps-Keeps ss as_ (s w).0)
  run_steps-Ensures (suc i) (s ∷ ss) h (a, as_) w ok =
      ground (arith, run_steps-Ensures i ss h as_ (s w).0)

  mount_base-Keeps : (m : Mount) → Keeps (mount_base k m)
  unfolding mount_base
  mount_base-Keeps m w h = k.run-keeps (mount m) t _ (k.run-keeps (mkdir_all m.target) t w h)

  mount_once-Keeps : (m : Mount) → Keeps (mount_once k m)
  unfolding mount_once
  mount_once-Keeps m w h = k.run-keeps (mount m) t _ (k.run-keeps (mkdir_all m.target) t w h)

  mount_retry-Keeps : (n : ℕ) (m : Mount) → Keeps (mount_retry k n m)
  unfolding mount_retry
  mount_retry-Keeps zero m w h = h
  mount_retry-Keeps (suc n) m w h = ground (
    arith,
    k.run-keeps (mount m) t w h,
    mount_retry-Keeps n m (k.run (mount m) w).0 (k.run-keeps (mount m) t w h),
  )

  replace_symlink-Keeps : (a b : Text) → Keeps (replace_symlink k a b)
  unfolding replace_symlink
  replace_symlink-Keeps a b w h =
      let h1 = k.run-keeps (remove b) t w h in
      ground (arith, h1, k.run-keeps (symlink a b) t (k.run (remove b) w).0 h1)

  wait_for-keeps :
      (n : ℕ) (path : Text) (w : W)
      → k.is_mounted t w ≡ true
      → k.is_mounted t (wait_for k n path w) ≡ true
  unfolding wait_for
  wait_for-keeps zero path w h = h
  wait_for-keeps (suc n) path w h =
      let h1 = k.run-keeps (stat path) t w h in
      ground (arith, h1, wait_for-keeps n path (k.run (stat path) w).0 h1)

  link_ptmx-Keeps : Keeps (link_ptmx k)
  unfolding link_ptmx
  link_ptmx-Keeps w h =
      let h1 = k.run-keeps (stat (codes "/dev/ptmx")) t w h in
      let w1 = (k.run (stat (codes "/dev/ptmx")) w).0 in
      ground (arith, h1, k.run-keeps (symlink (codes "/dev/pts/ptmx") (codes "/dev/ptmx")) t w1 h1)

  mount_root-Keeps : Keeps (mount_root k)
  unfolding mount_root bind_root
  mount_root-Keeps w h =
      let h1 = k.run-keeps (mkdir_all (container_root k)) t w h in
      let w1 = (k.run (mkdir_all (container_root k)) w).0 in
      ground (
        arith,
        k.run-keeps (mount (mount_of k (codes "/") (container_root k) [] [])) t w1 h1,
        mount_retry-Keeps 20 (mount_of k (codes "/dev/vda") (container_root k) (codes "ext4") []) w1
            h1,
      )

  mount_devpts-Keeps : Keeps (mount_devpts k)
  unfolding mount_devpts
  mount_devpts-Keeps w h =
      mount_retry-Keeps 10 (devpts k) _
        (k.run-keeps (mkdir_all (codes "/dev/pts")) t _ (wait_for-keeps 200 (codes "/dev/vda") w h))

module _ {W : Type 0} (k : Kernel W) where
  mount_base-Ensures : (m : Mount) → Ensures k m.target (mount_base k m)
  unfolding mount_base
  mount_base-Ensures m w ok =
      let w1 = (k.run (mkdir_all m.target) w).0 in ground (arith, k.run-mounted m w1)

  mount_once-Ensures : (m : Mount) → Ensures k m.target (mount_once k m)
  unfolding mount_once
  mount_once-Ensures m w ok =
      let w1 = (k.run (mkdir_all m.target) w).0 in
      ground (arith, k.run-mounted m w1, done→done_or_busy (k.run (mount m) w1).1)

  mount_retry-Ensures : (n : ℕ) (m : Mount) → Ensures k m.target (mount_retry k n m)
  unfolding mount_retry
  mount_retry-Ensures zero m w ok = cc
  mount_retry-Ensures (suc n) m w ok = ground (
    arith,
    k.run-mounted m w,
    done→done_or_busy (k.run (mount m) w).1,
    mount_retry-Ensures n m (k.run (mount m) w).0,
  )

  mount_root-Ensures : Ensures k (container_root k) (mount_root k)
  unfolding mount_root bind_root
  mount_root-Ensures w ok =
      let w1 = (k.run (mkdir_all (container_root k)) w).0 in
      let m = mount_of k (codes "/") (container_root k) [] [] in
      ground (
        arith,
        k.run-mounted m w1,
        done→done_or_busy (k.run (mount m) w1).1,
        mount_retry-Ensures 20 (mount_of k (codes "/dev/vda") (container_root k) (codes "ext4") [])
            w1,
      )

  mount_devpts-Ensures : Ensures k (codes "/dev/pts") (mount_devpts k)
  unfolding mount_devpts
  mount_devpts-Ensures w ok = mount_retry-Ensures 10 (devpts k) _ ok

  -- Where `mountBaseFilesystems` returns no error, /proc, /sys, /dev and /dev/shm are mounted,
  -- by this call or before it.
  pub mount_base_filesystems-mounted :
      (w : W)
      → (mount_base_filesystems k w).1 ≡ none
      → All
          (λ (t : Text). k.is_mounted t (mount_base_filesystems k w).0 ≡ true)
          (codes "/proc" ∷ codes "/sys" ∷ codes "/dev" ∷ codes "/dev/shm" ∷ [])
  unfolding mount_base_filesystems
  mount_base_filesystems-mounted w ok =
      let steps = base_steps k (base_mounts k) in
      let keeps : (t : Text) → All (Keeps k t) steps = λ t. (
        mount_base-Keeps k t _,
        (mount_base-Keeps k t _, (mount_base-Keeps k t _, (mount_base-Keeps k t _, tt))),
      ) in
      (
        run_steps-Ensures k _ 0 steps (mount_base-Ensures _) (keeps _) w ok,
        (
          run_steps-Ensures k _ 1 steps (mount_base-Ensures _) (keeps _) w ok,
          (
            run_steps-Ensures k _ 2 steps (mount_base-Ensures _) (keeps _) w ok,
            (run_steps-Ensures k _ 3 steps (mount_base-Ensures _) (keeps _) w ok, tt),
          ),
        ),
      )

  abbrev container_steps : List (Step k)
  container_steps =
      mount_devpts k ∷ link_ptmx k ∷ mount_root k ∷ container_mounts k ++ container_links k

  container_steps-Keeps : (t : Text) → All (Keeps k t) container_steps
  container_steps-Keeps t = (
    mount_devpts-Keeps k t,
    (
      link_ptmx-Keeps k t,
      (
        mount_root-Keeps k t,
        (
          mount_once-Keeps k t _,
          (
            mount_once-Keeps k t _,
            (
              mount_once-Keeps k t _,
              (
                mount_once-Keeps k t _,
                (
                  mount_once-Keeps k t _,
                  (
                    mount_once-Keeps k t _,
                    (
                      replace_symlink-Keeps k t _ _,
                      (
                        replace_symlink-Keeps k t _ _,
                        (
                          replace_symlink-Keeps k t _ _,
                          (replace_symlink-Keeps k t _ _, (replace_symlink-Keeps k t _ _, tt)),
                        ),
                      ),
                    ),
                  ),
                ),
              ),
            ),
          ),
        ),
      ),
    ),
  )

  -- Where `mountContainerFilesystems` returns no error, /dev/pts, the root of the container and in it
  -- /proc, /sys, /dev, /dev/shm, /tmp and /run are mounted.
  pub mount_container_filesystems-mounted :
      (w : W)
      → (mount_container_filesystems k w).1 ≡ none
      → All
          (λ (t : Text). k.is_mounted t (mount_container_filesystems k w).0 ≡ true)
          (codes "/dev/pts"
            ∷ codes "/mnt/container"
            ∷ codes "/mnt/container/proc"
            ∷ codes "/mnt/container/sys"
            ∷ codes "/mnt/container/dev"
            ∷ codes "/mnt/container/dev/shm"
            ∷ codes "/mnt/container/tmp"
            ∷ codes "/mnt/container/run"
            ∷ [])
  unfolding mount_container_filesystems
  mount_container_filesystems-mounted w ok =
      let at : (t : Text) (i : ℕ)
          → EnsuresAt k t i container_steps
          → k.is_mounted t (run_steps k container_steps w).0 ≡ true =
        λ t i h. run_steps-Ensures k t i container_steps h (container_steps-Keeps t) w ok in
      (
        at _ 0 mount_devpts-Ensures,
        (
          at _ 2 mount_root-Ensures,
          (
            at _ 3 (mount_once-Ensures _),
            (
              at _ 4 (mount_once-Ensures _),
              (
                at _ 5 (mount_once-Ensures _),
                (
                  at _ 6 (mount_once-Ensures _),
                  (at _ 7 (mount_once-Ensures _), (at _ 8 (mount_once-Ensures _), tt)),
                ),
              ),
            ),
          ),
        ),
      )
