-- ===== src/Firecracker/Stages.antt =====
-- Invariants of the frame through the stages of `Spawn`.
use herd.Common.{List, [], ◌∷◌, ◌++◌, All, arith}
use herd.Firecracker.Spawn.{Frame, Stage, run_stages}

module _ {W : Type 0} (P : Frame W → Type 0) where
  abbrev pub Keeps : Stage W → Type 0
  Keeps t = (s : Frame W) → P s → P (t s).0

  pub run_stages-Keeps : (ts : List (Stage W)) → All Keeps ts → Keeps (run_stages ts)
  unfolding run_stages
  run_stages-Keeps [] k s h = h
  run_stages-Keeps (t ∷ ts) (k, ks) s h =
      ground (arith, k s h, run_stages-Keeps ts ks (t s).0 (k s h))

  pub append-All : (ts us : List (Stage W)) → All Keeps ts → All Keeps us → All Keeps (ts ++ us)
  append-All [] us a b = b
  append-All (t ∷ ts) us (k, a) b = (k, append-All ts us a b)
