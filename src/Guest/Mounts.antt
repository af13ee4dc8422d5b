-- ===== src/Guest/Mounts.antt =====
-- cmd/herd-guest-agent/main.go: `mountBaseFilesystems`, `mountContainerFilesystems`, `replaceSymlink` and
-- `cmdlineHasHerdRootfs`. A pause changes nothing.
use herd.Common.{ℕ, zero, suc, Bool, false, List, [], ◌∷◌, ◌++◌, Option, none, some, if◌then◌else◌}
use herd.Common.Text.{Text, codes}
use herd.Common.Fields.{contains}
use herd.Guest.Kernel.{
  Mount, Call, mkdir_all, stat, remove, symlink, mount, missing, is_done, done_or_busy,
  done_or_missing, Kernel,
}

pub data MountError : Type 0 where
  not_mounted not_removed not_linked : Text → MountError

-- What a step leaves, and its error.
abbrev pub Result : Type 0 → Type 0
Result W = W × Option MountError

module _ {W : Type 0} (k : Kernel W) where
  abbrev pub Step : Type 0
  Step = W → Result W

  unfoldable pub run_steps : List Step → Step
  run_steps [] w = (w, none)
  run_steps (t ∷ ts) w =
      let (w', e) = t w in
      let rest = run_steps ts w' in elim e [ none ↦ rest | some x ↦ (w', some x) ]

  abbrev pub run_quietly : Call → W → W
  run_quietly c w = (k.run c w).0

  -- A directory, and a mount that may be there already.
  unfoldable pub mount_base : Mount → Step
  mount_base m w =
      let (w', a) = k.run (mount m) (run_quietly (mkdir_all m.target) w) in
      (w', if done_or_busy a then none else some (not_mounted m.target))

  -- A directory, and a mount that has to succeed.
  unfoldable pub mount_once : Mount → Step
  mount_once m w =
      let (w', a) = k.run (mount m) (run_quietly (mkdir_all m.target) w) in
      (w', if is_done a then none else some (not_mounted m.target))

  -- The same mount, tried so many times at most.
  unfoldable pub mount_retry : ℕ → Mount → Step
  mount_retry zero m w = (w, some (not_mounted m.target))
  mount_retry (suc n) m w =
      let (w', a) = k.run (mount m) w in
      let again = mount_retry n m w' in if is_done a then (w', none) else again

  unfoldable pub replace_symlink : Text → Text → Step
  replace_symlink oldname newname w =
      let (w1, a1) = k.run (remove newname) w in
      let (w2, a2) = k.run (symlink oldname newname) w1 in
      if done_or_missing a1
      then (w2, if is_done a2 then none else some (not_linked newname))
      else (w1, some (not_removed newname))

  unfoldable pub cmdline_has_herd_rootfs : W → Bool
  cmdline_has_herd_rootfs w = elim (k.cmdline w) [
    | none ↦ false
    | some b ↦ contains (codes "herd_rootfs=1") b
  ]

  abbrev pub mount_of : Text → Text → Text → Text → Mount
  mount_of source target fs_type options = record {
    source = source;
    target = target;
    fs_type = fs_type;
    options = options;
  }

  abbrev pub base_mounts : List Mount
  base_mounts =
      mount_of (codes "proc") (codes "/proc") (codes "proc") []
      ∷ mount_of (codes "sysfs") (codes "/sys") (codes "sysfs") []
      ∷ mount_of (codes "devtmpfs") (codes "/dev") (codes "devtmpfs") []
      ∷ mount_of (codes "tmpfs") (codes "/dev/shm") (codes "tmpfs") (codes "size=100m,mode=1777")
      ∷ []

  abbrev pub base_steps : List Mount → List Step
  base_steps [] = []
  base_steps (m ∷ ms) = mount_base m ∷ base_steps ms

  unfoldable pub mount_base_filesystems : Step
  mount_base_filesystems w = run_steps (base_steps base_mounts) w

  -- The loop that waits for a device gives up silently.
  unfoldable pub wait_for : ℕ → Text → W → W
  wait_for zero path w = w
  wait_for (suc n) path w =
      let (w', a) = k.run (stat path) w in
      let again = wait_for n path w' in if is_done a then w' else again

  -- `os.Stat` and, only where nothing is found, `os.Symlink`, whose error is ignored.
  unfoldable pub link_ptmx : Step
  link_ptmx w =
      let (w', a) = k.run (stat (codes "/dev/ptmx")) w in
      elim a [
        | missing ↦ (run_quietly (symlink (codes "/dev/pts/ptmx") (codes "/dev/ptmx")) w', none)
        | _ ↦ (w', none)
      ]

  abbrev pub container_root : Text
  container_root = codes "/mnt/container"

  abbrev pub devpts : Mount
  devpts = mount_of (codes "devpts") (codes "/dev/pts") (codes "devpts") (codes "ptmxmode=0666")

  unfoldable pub mount_devpts : Step
  mount_devpts w =
      mount_retry 10 devpts
        (run_quietly (mkdir_all (codes "/dev/pts")) (wait_for 200 (codes "/dev/vda") w))

  -- A bind mount, without a directory, that has to succeed.
  unfoldable pub bind_root : Step
  bind_root w =
      let (w', a) = k.run (mount (mount_of (codes "/") container_root [] [])) w in
      (w', if is_done a then none else some (not_mounted container_root))

  unfoldable pub mount_root : Step
  mount_root w =
      let w' = run_quietly (mkdir_all container_root) w in
      if cmdline_has_herd_rootfs w'
      then bind_root w'
      else mount_retry 20 (mount_of (codes "/dev/vda") container_root (codes "ext4") []) w'

  abbrev pub in_container : Text → Text
  in_container path = container_root ++ path

  abbrev pub bind : Text → Step
  bind path = mount_once (mount_of path (in_container path) [] [])

  abbrev pub tmpfs : Text → Text → Step
  tmpfs path options =
      mount_once (mount_of (codes "tmpfs") (in_container path) (codes "tmpfs") options)

  abbrev pub container_mounts : List Step
  container_mounts =
      bind (codes "/proc")
      ∷ bind (codes "/sys")
      ∷ bind (codes "/dev")
      ∷ tmpfs (codes "/dev/shm") (codes "size=64m,mode=1777")
      ∷ tmpfs (codes "/tmp") (codes "size=64m,mode=1777")
      ∷ tmpfs (codes "/run") (codes "size=16m,mode=0755")
      ∷ []

  abbrev pub container_links : List Step
  container_links =
      replace_symlink (codes "/run") (in_container (codes "/var/run"))
      ∷ replace_symlink (codes "/proc/self/fd") (in_container (codes "/dev/fd"))
      ∷ replace_symlink (codes "/proc/self/fd/0") (in_container (codes "/dev/stdin"))
      ∷ replace_symlink (codes "/proc/self/fd/1") (in_container (codes "/dev/stdout"))
      ∷ replace_symlink (codes "/proc/self/fd/2") (in_container (codes "/dev/stderr"))
      ∷ []

  unfoldable pub mount_container_filesystems : Step
  mount_container_filesystems w =
      run_steps (mount_devpts ∷ link_ptmx ∷ mount_root ∷ container_mounts ++ container_links) w
