-- ===== src/Storage/Teardown.antt =====
-- internal/storage/bootstrap.go: `Teardown`.
use herd.Common.{
  ℕ, zero, suc, Bool, true, false, not, List, [], ◌∷◌, ◌++◌, Option, none, some, if◌then◌else◌,
}
use herd.Common.Text.{Text, is_empty}
use herd.Common.Split.{split, trim_space}
use herd.Storage.Host.{
  state_dir, File, data_file, metadata_file, Removal, remove_all, take_away, list_loops, detach,
  remove_pool, pkill_containerd, Reply, is_ok, is_gone, output, Os,
}

pub data TeardownError : Type 0 where
  not_stopped pool_left not_removed : TeardownError
  not_listed : File → TeardownError
  not_detached : File → Text → TeardownError

abbrev pub first_part : List Text → Text
first_part [] = []
first_part (p ∷ ps) = p

-- The devices in the lines "<device>: ..." of losetup -j.
unfoldable pub device_lines : List Text → List Text
device_lines [] = []
device_lines (line ∷ lines) =
    let rest = device_lines lines in
    let device = trim_space (first_part (split 58 (trim_space line))) in
    if is_empty device then rest else device ∷ rest

module _ {W : Type 0} (os : Os W) where
  -- `removeThinPool` and `detachLoopDevice`: no error also if it is not there.
  unfoldable pub take : Removal → W → W × Bool
  take r w = let (w1, a) = os.run (take_away r) w in (w1, is_gone a)

  -- `removeThinPoolWithRetry`
  unfoldable pub remove_with_retry : ℕ → W → W × Bool
  remove_with_retry zero w = (w, false)
  remove_with_retry (suc attempts) w =
      let (w1, gone) = take remove_pool w in
      let again = remove_with_retry attempts w1 in if gone then (w1, true) else again

  unfoldable pub devices_of : Reply → Option (List Text)
  devices_of a =
      let text = trim_space (output a) in
      if is_empty text
      then some []
      else if is_ok a
      then some (device_lines (split 10 text))
      else none

  -- `loopDevicesForFile`
  unfoldable pub loop_devices_for_file : File → W → W × Option (List Text)
  loop_devices_for_file f w = let (w1, a) = os.run (list_loops f) w in (w1, devices_of a)

  -- The inner loop of `Teardown`, with the errors so far.
  unfoldable pub detach_all : File → List Text → W → List TeardownError → W × List TeardownError
  detach_all f [] w errs = (w, errs)
  detach_all f (d ∷ ds) w errs =
      let (w1, gone) = take (detach d) w in
      detach_all f ds w1 (if gone then errs else errs ++ not_detached f d ∷ [])

  unfoldable pub detach_file : File → W × List TeardownError → W × List TeardownError
  detach_file f (w, errs) =
      let (w1, devices) = loop_devices_for_file f w in
      elim devices [ none ↦ (w1, errs ++ not_listed f ∷ []) | some ds ↦ detach_all f ds w1 errs ]

  unfoldable pub add_if : Bool → TeardownError → W × List TeardownError → W × List TeardownError
  add_if true e (w, errs) = (w, errs ++ e ∷ [])
  add_if false e r = r

  unfoldable pub stop_containerd : W → W × List TeardownError
  stop_containerd w =
      let (w1, a) = os.run pkill_containerd w in add_if (not (is_gone a)) not_stopped (w1, [])

  unfoldable pub drop_pool : W × List TeardownError → W × List TeardownError
  drop_pool (w, errs) =
      let (w1, gone) = remove_with_retry 5 w in add_if (not gone) pool_left (w1, errs)

  unfoldable pub drop_state : W × List TeardownError → W × List TeardownError
  drop_state (w, errs) =
      let (w1, a) = os.run (take_away (remove_all state_dir)) w in
      add_if (not (is_ok a)) not_removed (w1, errs)

  -- `Teardown`: every part is tried, whatever failed before it.
  unfoldable pub teardown : W → W × List TeardownError
  teardown w =
      drop_state (detach_file metadata_file (detach_file data_file (drop_pool (stop_containerd w))))
