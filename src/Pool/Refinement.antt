-- ===== src/Pool/Refinement.antt =====
-- The interleaved pool implements its abstract view.
use herd.Common.{◌≡◌, ◌⊎◌}
use herd.Pool.State.{SessionId, Pool, Outcome, ran}
use herd.Pool.System.{System}
use herd.Pool.Ledger.Local.{Local}
use herd.Pool.Flow.{Flow}
use herd.Pool.Spec.{View, Leads, Label, phase}

abbrev Moves : Label → Pool → Outcome → Type 0
Moves (s, a) p (ran q u) = (phase q s ≡ phase p s) ⊎ Leads a (phase p s) (phase q s)
Moves l p _ = Unit {0}

abbrev Stays : SessionId → Pool → Outcome → Type 0
Stays k p (ran q u) = phase q k ≡ phase p k
Stays k p _ = Unit {0}

-- What the view makes of a state.
abbrev pub view : System → View
view s = phase s.pool
