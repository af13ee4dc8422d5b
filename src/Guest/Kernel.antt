-- ===== src/Guest/Kernel.antt =====
-- cmd/herd-guest-agent/main.go: what the agent asks of the kernel of its machine, which is a parameter.
-- Paths and names are texts; the flags of a mount are left out.
use herd.Common.{◌≡◌, Bool, true, false, Option}
use herd.Common.Text.{Text}
use herd.Network.Ipam.Defs.{Address}

pub record Mount : Type 0 where
  pub source : Text
  pub target : Text
  pub fs_type : Text
  pub options : Text

pub data Call : Type 0 where
  mkdir_all stat remove : Text → Call
  symlink : Text → Text → Call
  mount : Mount → Call
  link_up : Text → Call
  addr_add : Text → Address → Address → Call
  route_add : Text → Address → Call
  write_file : Text → Text → Call

-- `busy` is EBUSY, `missing` is an error of which `os.IsNotExist` holds.
pub data Answer : Type 0 where
  done busy missing failed : Answer

abbrev pub is_done : Answer → Bool
is_done done = true
is_done _ = false

abbrev pub done_or_busy : Answer → Bool
done_or_busy done = true
done_or_busy busy = true
done_or_busy _ = false

abbrev pub done_or_missing : Answer → Bool
done_or_missing done = true
done_or_missing missing = true
done_or_missing _ = false

-- The kernel, with what it documents: a mount that succeeds, or finds its target busy with the same
-- mount, is there afterwards, and no call that the agent makes unmounts anything.
pub record Kernel (W : Type 0) : Type 0 where
  pub run : Call → W → W × Answer
  pub has_link : Text → W → Bool
  pub cmdline : W → Option Text
  pub is_mounted : Text → W → Bool
  pub run-mounted :
      (m : Mount) (w : W)
      → done_or_busy (run (mount m) w).1 ≡ true
      → is_mounted m.target (run (mount m) w).0 ≡ true
  pub run-keeps :
      (c : Call) (t : Text) (w : W) → is_mounted t w ≡ true → is_mounted t (run c w).0 ≡ true
