-- ===== src/Host/Sample.antt =====
-- A machine for the tests, on which all commands succeed but those of one kind. Its world is the
-- count of each resource.
use herd.Common.{ℕ, refl}
use herd.Host.Machine.{
  Resource, forward, Command, connect, append, addr_add, Answer, done, failed, after, Machine,
  Removes,
}

abbrev pub World : Type 0
World = Resource → ℕ

pub data Fault : Type 0 where
  no_fault no_connection no_forward no_address : Fault

abbrev pub answer : Command → Fault → Answer
answer (connect v) no_connection = failed
answer (append (forward p a b)) no_forward = failed
answer (addr_add t) no_address = failed
answer c fault = done

abbrev pub machine : Fault → Machine World
machine fault = record {
  run = λ c w. (λ q. after c (answer c fault) q (w q), answer c fault);
  count = λ q w. w q;
  run-count = λ c q w. refl;
}

-- No removal fails.
pub machine-Removes : (fault : Fault) → Removes (machine fault)
machine-Removes fault = record {
  finds = λ t w h. refl;
  rules = λ r w h. refl;
  taps = λ t w h. refl;
  snapshots = λ v w h. refl;
  jails = λ v w h. refl;
  processes = λ v w h. refl;
}

abbrev pub empty : World
empty q = 0
