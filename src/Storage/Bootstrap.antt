-- ===== src/Storage/Bootstrap.antt =====
-- internal/storage/bootstrap.go: `Bootstrap` as its steps, with the cleanup stack, and the helpers that
-- run one command.
use herd.Common.{
  ℕ, ◌/◌, ◌^◌, ◌*◌, ◌-◌, Bool, true, false, not, List, [], ◌∷◌, Option, none, some, if◌then◌else◌,
}
use herd.Common.Text.{Text, is_empty}
use herd.Common.Split.{trim_space}
use herd.Common.Numerals.{parse_uint, is_digit}
use herd.Storage.Host.{
  Dir, state_dir, devmapper_dir, containerd_dir, File, data_file, metadata_file, Table, Removal,
  take_away, mkdir_all, remove_all, create, remove, attach, associated, truncate, detach,
  block_size, create_pool, pool_status, reload_pool, remove_pool, write_config, remove_config,
  start_containerd, Reply, dir, file, is_ok, output, Os,
}

-- What makes `Bootstrap` fail.
pub data Failure : Type 0 where
  no_dir : Dir → Failure
  no_file no_truncate no_loop : File → Failure
  no_size no_pool no_config no_containerd : Failure

-- The variables of `Bootstrap`; an entry of the cleanup stack is the call that it makes.
pub record Frame (W : Type 0) : Type 0 where
  pub world : W
  pub cleanup : List Removal
  pub data_loop : Text
  pub metadata_loop : Text

abbrev pub Step : Type 0 → Type 0
Step W = Frame W → Frame W × Option Failure

-- The digits at the start of a text, for `Sscanf` with "%d"; blockdev prints no sign.
unfoldable pub leading_digits : Text → Text
leading_digits [] = []
leading_digits (c ∷ t) = let rest = leading_digits t in if is_digit c then c ∷ rest else []

module _ {W : Type 0} (os : Os W) where
  -- `createSparseFile`: whether the file was made here, or what failed.
  unfoldable pub create_sparse_file : File → ℕ → W → W × Bool × Option Failure
  create_sparse_file f size w =
      if os.has (file f) w
      then (w, false, none)
      else let (w1, r1) = os.run (create f) w in
        if not (is_ok r1)
        then (w1, false, some (no_file f))
        else let (w2, r2) = os.run (truncate f size) w1 in
          if not (is_ok r2) then (w2, false, some (no_truncate f)) else (w2, true, none)

  -- The output of a command that succeeds.
  abbrev pub device_of : Reply → Text
  device_of r = if is_ok r then trim_space (output r) else []

  -- `setupLoopDevice`: the device, and whether it was made here.
  unfoldable pub setup_loop_device : File → W → W × Text × Bool × Option Failure
  setup_loop_device f w =
      let (w1, r) = os.run (associated f) w in
      if not (is_empty (device_of r))
      then (w1, device_of r, false, none)
      else let (w2, r2) = os.run (attach f) w1 in
        if is_ok r2
        then (w2, trim_space (output r2), true, none)
        else (w2, [], false, some (no_loop f))

  unfoldable pub thin_pool_exists : W → W × Bool
  thin_pool_exists w = let (w1, r) = os.run pool_status w in (w1, is_ok r)

  abbrev pub size_of : Reply → Option ℕ
  size_of r =
      if is_ok r then parse_uint (2 ^ 63 - 1) (leading_digits (trim_space (output r))) else none

  unfoldable pub get_blockdev_size : Text → W → W × Option ℕ
  get_blockdev_size device w = let (w1, r) = os.run (block_size device) w in (w1, size_of r)

  abbrev pub set_world : W → Frame W → Frame W
  set_world w s = record s { world = w }

  -- What is made here is put on the cleanup stack.
  abbrev pub push_if : Bool → Removal → Frame W → Frame W
  push_if made r s = record s { cleanup = if made then r ∷ s.cleanup else s.cleanup }

  unfoldable pub make_dir : Dir → Step W
  make_dir d s =
      let existed = os.has (dir d) s.world in
      let (w, r) = os.run (mkdir_all d) s.world in
      if is_ok r
      then (push_if (not existed) (remove_all d) (set_world w s), none)
      else (set_world w s, some (no_dir d))

  unfoldable pub make_file : File → ℕ → Step W
  make_file f size s =
      let (w, made, e) = create_sparse_file f size s.world in
      elim e [
        | none ↦ (push_if made (remove f) (set_world w s), none)
        | some x ↦ (set_world w s, some x)
      ]

  -- The device is kept for the table.
  abbrev pub keep_loop : File → Text → Frame W → Frame W
  keep_loop data_file d s = record s { data_loop = d }
  keep_loop metadata_file d s = record s { metadata_loop = d }

  unfoldable pub make_loop : File → Step W
  make_loop f s =
      let (w, d, made, e) = setup_loop_device f s.world in
      elim e [
        | none ↦ (keep_loop f d (push_if made (detach d) (set_world w s)), none)
        | some x ↦ (set_world w s, some x)
      ]

  abbrev pub table_of : ℕ → Frame W → Table
  table_of size s = record {
    length_sectors = size / 512;
    metadata_device = s.metadata_loop;
    data_device = s.data_loop;
    data_block_size = 128;
    low_water_mark = 32768;
  }

  unfoldable pub make_pool : Step W
  make_pool s =
      let (w, exists) = thin_pool_exists s.world in
      if exists
      then (set_world (os.run reload_pool w).0 s, none)
      else let (w1, size) = get_blockdev_size s.data_loop w in
        elim size [
          | none ↦ (set_world w1 s, some no_size)
          | some n ↦
              let (w2, r) = os.run (create_pool (table_of n s)) w1 in
              if is_ok r
              then (push_if true remove_pool (set_world w2 s), none)
              else (set_world w2 s, some no_pool)
        ]

  unfoldable pub make_config : Step W
  make_config s =
      let (w, r) = os.run write_config s.world in
      if is_ok r
      then (push_if true remove_config (set_world w s), none)
      else (set_world w s, some no_config)

  -- The wait for the socket after this changes nothing.
  unfoldable pub launch_containerd : Step W
  launch_containerd s =
      let (w, r) = os.run start_containerd s.world in
      (set_world w s, if is_ok r then none else some no_containerd)

  unfoldable pub run_steps : List (Step W) → Step W
  run_steps [] s = (s, none)
  run_steps (t ∷ ts) s =
      let (s', e) = t s in
      let rest = run_steps ts s' in elim e [ none ↦ rest | some x ↦ (s', some x) ]

  abbrev pub gib : ℕ
  gib = 1024 * 1024 * 1024

  abbrev pub bootstrap_steps : List (Step W)
  bootstrap_steps =
      make_dir state_dir
      ∷ make_dir devmapper_dir
      ∷ make_file data_file (20 * gib)
      ∷ make_file metadata_file (2 * gib)
      ∷ make_loop data_file
      ∷ make_loop metadata_file
      ∷ make_pool
      ∷ make_dir containerd_dir
      ∷ make_config
      ∷ launch_containerd
      ∷ []

  -- The deferred loop, from the entry that was pushed last. That a call fails is only logged.
  unfoldable pub clean_up : List Removal → W → W
  clean_up [] w = w
  clean_up (r ∷ rs) w = clean_up rs (os.run (take_away r) w).0

  unfoldable pub finish : Frame W × Option Failure → W × Option Failure
  finish (s, none) = (s.world, none)
  finish (s, some e) = (clean_up s.cleanup s.world, some e)

  unfoldable pub bootstrap : W → W × Option Failure
  bootstrap w = finish (
      run_steps bootstrap_steps
        (record { world = w; cleanup = []; data_loop = []; metadata_loop = [] }))
