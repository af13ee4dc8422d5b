-- ===== src/Network/Ipam/Tests.antt =====
-- The allocator of the daemon's block 10.200.0.0/16, with the first address in use.
use herd.Common.{refl, [], ◌∷◌, arith}
use herd.Network.Ipam.Defs.{Ipam, acquire}
use herd.Network.Ipam.Block.{block, host}
use herd.Network.Ipam.Allocation.{IsReady, Acquired, acquire-Acquired}

abbrev busy : Ipam
busy = record { subnet = block 10 200; used = host 10 200 2 ∷ []; next_ip = host 10 200 2 }

busy-IsReady : IsReady 10 200 busy
busy-IsReady = record {
  a_byte = omega arith;
  b_byte = omega arith;
  same = refl;
  cursor = 2;
  low = omega arith;
  high = omega arith;
  at_cursor = refl;
}

acquire-Acquired_example : Acquired 10 200 busy (acquire 65536 busy)
acquire-Acquired_example = acquire-Acquired 10 200 65536 busy busy-IsReady (omega arith)
