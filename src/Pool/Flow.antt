-- ===== src/Pool/Flow.antt =====
-- No session of the pool is bound twice, and every channel has one closer.
use herd.Common.{
  ℕ, ◌+◌, ◌≤◌, ◌≡◌, ◌≢◌, refl, subst, ◌∙◌, List, [], ◌∷◌, ◌++◌, some, Option-cases, inl, inr, arith,
  total-append, weight-le-total, All, bound, get_elem?,
}
use herd.Pool.State.{SessionId, Config, Pool, Task, Env, Outcome, ran, blocked, panicked, new}
use herd.Pool.System.{
  step, acquires, kills, releases, crashes, entry, Event, call, turn, System, Status, running, dead,
  settle, exec, run, start,
}
use herd.Pool.Ledger.Weights.{
  Ledger, IsBalanced, Keeps, Keeps-IsBalanced, flights, channels, rogues,
}
use herd.Pool.Ledger.Local.{Local}
use herd.Pool.Ledger.Moves.{
  IsExclusive, step-flights, step-channels, step-rogues, step-IsExclusive, step-survives,
  SameConfig, step-SameConfig,
}

-- The entries of `inflight` and of the registry, and the channels.
pub record Flow (c : Config) (s : System) : Type 0 where
  pub config : s.pool.config ≡ c
  pub flight_book : (k : SessionId) → IsBalanced (flights k) s.pool s.tasks
  pub channel_book : (c : ℕ) → IsBalanced (channels c) s.pool s.tasks
  pub rogue_book : IsBalanced rogues s.pool s.tasks
  pub exclusive : (k : SessionId) → bound k s.pool.inflight + bound k s.pool.registry ≤ 1

-- The calls that the daemon makes: `Acquire` and `KillWorker`.
abbrev pub IsDaemonCall : Event → Type 0
IsDaemonCall (call (acquires s)) = Unit {0}
IsDaemonCall (call (kills s)) = Unit {0}
IsDaemonCall (call (releases s w)) = ⊥
IsDaemonCall (call (crashes s)) = ⊥
IsDaemonCall (turn i e) = Unit {0}

-- The process is alive, in a state of which `Φ` holds.
abbrev pub Alive : (System → Type 0) → Status → Type 0
Alive Φ (running s) = Φ s
Alive Φ dead = ⊥

pub start-Flow : (c : Config) → Flow c (start c)
unfolding start new
start-Flow c = record {
  config = refl;
  flight_book = λ k. refl;
  channel_book = λ k. ground arith;
  rogue_book = refl;
  exclusive = λ k. omega arith;
}

-- A goroutine that enters a method holds nothing yet.
pub enter :
    (l : Ledger) (p : Pool) (ts : List Task) (t : Task)
    → l.weight t ≡ 0
    → IsBalanced l p ts
    → IsBalanced l p (ts ++ t ∷ [])
enter l p ts t z b = omega (arith, total-append l.weight ts (t ∷ []))

pub enter-Flow :
    (g : Config) (s : System) (t : Task)
    → ((k : SessionId) → (flights k).weight t ≡ 0)
    → ((c : ℕ) → (channels c).weight t ≡ 0)
    → rogues.weight t ≡ 0
    → Flow g s
    → Flow g (record s { tasks = s.tasks ++ t ∷ [] })
enter-Flow g s t c d e v = record {
  config = v.config;
  flight_book = λ k. enter (flights k) s.pool s.tasks t (c k) (v.flight_book k);
  channel_book = λ k. enter (channels k) s.pool s.tasks t (d k) (v.channel_book k);
  rogue_book = enter rogues s.pool s.tasks t e v.rogue_book;
  exclusive = v.exclusive;
}

-- What the invariants say about the goroutine that runs next.
pub Flow-Local :
    (g : Config) (s : System) (i : ℕ) (t : Task)
    → get_elem? s.tasks i ≡ some t
    → Flow g s
    → Local s.pool t
Flow-Local g s i t e v = record {
  held = λ k. omega (arith, weight-le-total (flights k).weight s.tasks i t e, v.flight_book k);
  open_chan =
      λ c. omega (arith, weight-le-total (channels c).weight s.tasks i t e, v.channel_book c);
  exclusive = v.exclusive;
  calm = omega (arith, weight-le-total rogues.weight s.tasks i t e, v.rogue_book);
}

settle-Flow :
    (g : Config) (s : System) (i : ℕ) (t : Task) (o : Outcome)
    → get_elem? s.tasks i ≡ some t
    → Flow g s
    → SameConfig s.pool o
    → ((k : SessionId) → Keeps (flights k) s.pool t o)
    → ((c : ℕ) → Keeps (channels c) s.pool t o)
    → Keeps rogues s.pool t o
    → ((k : SessionId) → IsExclusive k o)
    → o ≢ panicked
    → Alive (Flow g) (settle s i o)
settle-Flow g s i t (ran q u) e v f c d r x n = record {
  config = f ∙ v.config;
  flight_book = λ k. Keeps-IsBalanced (flights k) s.pool q s.tasks i t u e (c k) (v.flight_book k);
  channel_book =
      λ k. Keeps-IsBalanced (channels k) s.pool q s.tasks i t u e (d k) (v.channel_book k);
  rogue_book = Keeps-IsBalanced rogues s.pool q s.tasks i t u e r v.rogue_book;
  exclusive = x;
}
settle-Flow g s i t blocked e v f c d r x n = v
settle-Flow g s i t panicked e v f c d r x n = absurd (n refl)

pub turn-Flow :
    (g : Config) (s : System) (i : ℕ) (e : Env) (t : Task)
    → get_elem? s.tasks i ≡ some t
    → Flow g s
    → Alive (Flow g) (settle s i (step e s.pool t))
turn-Flow g s i e t h v =
    let l = Flow-Local g s i t h v in
    settle-Flow g s i t (step e s.pool t) h v (step-SameConfig e s.pool t l)
      (λ k. step-flights k e s.pool t l) (λ c. step-channels c e s.pool t l)
      (step-rogues e s.pool t l) (λ k. step-IsExclusive k e s.pool t l) (step-survives e s.pool t l)

pub exec-Flow :
    (g : Config) (s : System) (e : Event) → IsDaemonCall e → Flow g s → Alive (Flow g) (exec s e)
unfolding exec
exec-Flow g s (call (acquires k)) d v =
    enter-Flow g s (entry (acquires k)) (λ _. refl) (λ _. refl) refl v
exec-Flow g s (call (kills k)) d v = enter-Flow g s (entry (kills k)) (λ _. refl) (λ _. refl) refl v
exec-Flow g s (call (releases k w)) d v = absurd d
exec-Flow g s (call (crashes k)) d v = absurd d
exec-Flow g s (turn i e) d v = elim (Option-cases (get_elem? s.tasks i)) [
  | inl out ↦ rw (out, exec) v
  | inr (t, at) ↦ rw (at, exec) (turn-Flow g s i e t at v)
]

-- What every event of a kind keeps, a run of such events keeps.
module _ (Φ : System → Type 0) (P : Event → Type 0)
    (keeps : (s : System) (e : Event) → P e → Φ s → Alive Φ (exec s e)) where
  run_next :
      (st : Status) (es : List Event)
      → Alive Φ st
      → ((s : System) → Φ s → Alive Φ (run s es))
      → Alive Φ (elim st [ running s' ↦ run s' es | dead ↦ dead ])
  run_next (running s) es v next = next s v
  run_next dead es v next = absurd v

  pub run_keeps : (s : System) (es : List Event) → All P es → Φ s → Alive Φ (run s es)
  unfolding run
  run_keeps s [] d v = v
  run_keeps s (e ∷ es) d v =
      run_next (exec s e) es (keeps s e d.0 v) (λ s' v'. run_keeps s' es d.1 v')

-- However the goroutines are interleaved, and whichever of their calls fail, any number of
-- concurrent calls of `Acquire` and `KillWorker` on a new pool never panics, and no session is bound
-- twice.
pub run-start-Flow :
    (g : Config) (es : List Event) → All IsDaemonCall es → Alive (Flow g) (run (start g) es)
run-start-Flow g es d = run_keeps (Flow g) IsDaemonCall (exec-Flow g) (start g) es d (start-Flow g)

-- The state that a run ended in.
pub Alive-at : (Φ : System → Type 0) (st : Status) (s : System) → st ≡ running s → Alive Φ st → Φ s
Alive-at Φ st s e a = subst (Alive Φ) e a
