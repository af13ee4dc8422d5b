-- ===== src/Storage/Host.antt =====
-- internal/storage/bootstrap.go: what it asks of the host. The calls of package os and the commands
-- losetup, blockdev, dmsetup, containerd and pkill are a parameter, with what they make and remove.
use herd.Common.{ℕ, ◌≡◌, Bool, true, false, ◌||◌, ◌&&◌}
use herd.Common.Text.{Text, text_eq}
use herd.Common.Split.{trim_space}

-- Below the state directory: itself, "devmapper" and "containerd".
pub data Dir : Type 0 where
  state_dir devmapper_dir containerd_dir : Dir

-- "devmapper/data" and "devmapper/metadata".
pub data File : Type 0 where
  data_file metadata_file : File

-- The table of the thin-pool, "0 <length> thin-pool <metadata> <data> <block size> <mark> ...".
pub record Table : Type 0 where
  pub length_sectors : ℕ
  pub metadata_device : Text
  pub data_device : Text
  pub data_block_size : ℕ
  pub low_water_mark : ℕ

-- The calls that only take something away.
pub data Removal : Type 0 where
  remove_all : Dir → Removal
  remove : File → Removal
  detach : Text → Removal
  remove_pool remove_config : Removal

pub data Op : Type 0 where
  take_away : Removal → Op
  mkdir_all : Dir → Op
  create attach associated list_loops : File → Op
  truncate : File → ℕ → Op
  block_size : Text → Op
  create_pool : Table → Op
  pool_status reload_pool write_config start_containerd pkill_containerd : Op

-- What a call answers: its output; that what it should remove or stop is not there (for pkill, exit
-- code 1); or another failure, with its output.
pub data Reply : Type 0 where
  ok absent failed : Text → Reply

pub data Thing : Type 0 where
  dir : Dir → Thing
  file : File → Thing
  loop : Text → Thing
  pool config containerd : Thing

abbrev pub dir_eq : Dir → Dir → Bool
dir_eq state_dir state_dir = true
dir_eq devmapper_dir devmapper_dir = true
dir_eq containerd_dir containerd_dir = true
dir_eq _ _ = false

abbrev pub file_eq : File → File → Bool
file_eq data_file data_file = true
file_eq metadata_file metadata_file = true
file_eq _ _ = false

abbrev pub thing_eq : Thing → Thing → Bool
thing_eq (dir d) (dir e) = dir_eq d e
thing_eq (file f) (file g) = file_eq f g
thing_eq (loop d) (loop e) = text_eq d e
thing_eq pool pool = true
thing_eq config config = true
thing_eq containerd containerd = true
thing_eq _ _ = false

-- What lies in a directory, itself included.
abbrev pub within : Dir → Thing → Bool
within state_dir (dir d) = true
within state_dir (file f) = true
within state_dir config = true
within devmapper_dir (dir devmapper_dir) = true
within devmapper_dir (file f) = true
within containerd_dir (dir containerd_dir) = true
within d t = false

abbrev pub output : Reply → Text
output (ok out) = out
output (absent out) = out
output (failed out) = out

abbrev pub is_ok : Reply → Bool
is_ok (ok out) = true
is_ok _ = false

-- The call left nothing of what it should remove.
abbrev pub is_gone : Reply → Bool
is_gone (failed out) = false
is_gone _ = true

-- What a call may make, by its answer: a file that could not be written may be there all the same.
abbrev pub makes : Op → Reply → Thing → Bool
makes (mkdir_all d) r t = is_ok r && thing_eq (dir d) t
makes (create f) r t = is_ok r && thing_eq (file f) t
makes (attach f) r t = is_ok r && thing_eq (loop (trim_space (output r))) t
makes (create_pool table) r t = is_ok r && thing_eq pool t
makes write_config r t = thing_eq config t
makes start_containerd r t = is_ok r && thing_eq containerd t
makes op r t = false

abbrev pub takes : Removal → Thing → Bool
takes (remove_all d) t = within d t
takes (remove f) t = thing_eq (file f) t
takes (detach d) t = thing_eq (loop d) t
takes remove_pool t = thing_eq pool t
takes remove_config t = thing_eq config t

-- What a call may remove.
abbrev pub removes : Op → Thing → Bool
removes (take_away r) t = takes r t
removes pkill_containerd t = thing_eq containerd t
removes op t = false

pub record Os (W : Type 0) : Type 0 where
  pub run : Op → W → W × Reply
  pub has : Thing → W → Bool
  pub run-only_makes :
      (op : Op) (t : Thing) (w : W)
      → has t (run op w).0 ≡ true
      → (makes op (run op w).1 t || has t w) ≡ true
  pub run-only_removes :
      (op : Op) (t : Thing) (w : W)
      → removes op t ≡ false
      → has t w ≡ true
      → has t (run op w).0 ≡ true
  -- A removal that succeeds, of what nothing else has open; of pkill that says nothing, since it only
  -- sends a signal.
  pub run-removes :
      (r : Removal) (t : Thing) (w : W)
      → is_gone (run (take_away r) w).1 ≡ true
      → takes r t ≡ true
      → has t (run (take_away r) w).0 ≡ false
  -- losetup --find gives a device that is not in use.
  pub attach-fresh :
      (f : File) (w : W)
      → is_ok (run (attach f) w).1 ≡ true
      → has (loop (trim_space (output (run (attach f) w).1))) w ≡ false
  -- dmsetup status fails if there is no pool of the name.
  pub status-has : (w : W) → is_ok (run pool_status w).1 ≡ has pool w
  -- What is there has its directories.
  pub tree :
      (d : Dir) (t : Thing) (w : W) → within d t ≡ true → has t w ≡ true → has (dir d) w ≡ true
