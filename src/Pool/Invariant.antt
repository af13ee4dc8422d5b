-- ===== src/Pool/Invariant.antt =====
-- The accounts of tickets and workers balance over all goroutines.
use herd.Common.{
  ℕ, ◌≡◌, false, refl, List, [], ◌∷◌, ◌++◌, some, Option-cases, inl, inr, arith, weight-le-total,
  All, get_elem?,
}
use herd.Pool.State.{Config, Task, Env, Outcome, ran, blocked, panicked, new, killing}
use herd.Pool.System.{
  step, acquires, kills, releases, crashes, entry, Event, call, turn, System, settle, exec, run,
  start,
}
use herd.Pool.Ledger.Weights.{IsBalanced, Keeps, Keeps-IsBalanced, tickets, owners}
use herd.Pool.Ledger.Local.{Owned}
use herd.Pool.Ledger.Moves.{Deletes, step-tickets, step-owners}
use herd.Pool.Flow.{
  Flow, IsDaemonCall, Alive, start-Flow, enter, enter-Flow, Flow-Local, turn-Flow, run_keeps,
}

-- The tickets and the workers besides.
pub record Inv (c : Config) (s : System) : Type 0 where
  pub flow : Flow c s
  pub ticket_book : IsBalanced tickets s.pool s.tasks
  pub owner_book : (i : ℕ) → IsBalanced (owners i) s.pool s.tasks

-- The calls that the daemon makes, on a registry whose `Delete` returns no error, as that of
-- registry.go never does.
abbrev pub IsReliableCall : Event → Type 0
IsReliableCall (call c) = IsDaemonCall (call c)
IsReliableCall (turn i e) = e.undeleted ≡ false

deletes : (e : Env) (t : Task) → e.undeleted ≡ false → Deletes e t
deletes e (killing s) h = h
deletes e _ h = tt

pub start-Inv : (c : Config) → Inv c (start c)
unfolding start new
start-Inv c = record { flow = start-Flow c; ticket_book = omega arith; owner_book = λ i. refl }

Inv-Owned :
    (g : Config) (s : System) (i : ℕ) (t : Task)
    → get_elem? s.tasks i ≡ some t
    → Inv g s
    → Owned s.pool t
Inv-Owned g s i t e v = record {
  ticket = omega (arith, weight-le-total tickets.weight s.tasks i t e, v.ticket_book);
  owned = λ j. omega (arith, weight-le-total (owners j).weight s.tasks i t e, v.owner_book j);
}

settle-Inv :
    (g : Config) (s : System) (i : ℕ) (t : Task) (o : Outcome)
    → get_elem? s.tasks i ≡ some t
    → Inv g s
    → Alive (Flow g) (settle s i o)
    → Keeps tickets s.pool t o
    → ((j : ℕ) → Keeps (owners j) s.pool t o)
    → Alive (Inv g) (settle s i o)
settle-Inv g s i t (ran q u) e v f a b = record {
  flow = f;
  ticket_book = Keeps-IsBalanced tickets s.pool q s.tasks i t u e a v.ticket_book;
  owner_book = λ j. Keeps-IsBalanced (owners j) s.pool q s.tasks i t u e (b j) (v.owner_book j);
}
settle-Inv g s i t blocked e v f a b = v
settle-Inv g s i t panicked e v f a b = absurd f

turn-Inv :
    (g : Config) (s : System) (i : ℕ) (e : Env) (t : Task)
    → get_elem? s.tasks i ≡ some t
    → Inv g s
    → Deletes e t
    → Alive (Inv g) (settle s i (step e s.pool t))
turn-Inv g s i e t h v d =
    let l = Flow-Local g s i t h v.flow in
    let o = Inv-Owned g s i t h v in
    settle-Inv g s i t (step e s.pool t) h v (turn-Flow g s i e t h v.flow)
      (step-tickets e s.pool t l o) (λ j. step-owners j e s.pool t l o d)

enter-Inv :
    (g : Config) (s : System) (t : Task)
    → tickets.weight t ≡ 0
    → ((i : ℕ) → (owners i).weight t ≡ 0)
    → Flow g (record s { tasks = s.tasks ++ t ∷ [] })
    → Inv g s
    → Inv g (record s { tasks = s.tasks ++ t ∷ [] })
enter-Inv g s t a b f v = record {
  flow = f;
  ticket_book = enter tickets s.pool s.tasks t a v.ticket_book;
  owner_book = λ i. enter (owners i) s.pool s.tasks t (b i) (v.owner_book i);
}

exec-Inv :
    (g : Config) (s : System) (e : Event) → IsReliableCall e → Inv g s → Alive (Inv g) (exec s e)
unfolding exec
exec-Inv g s (call (acquires k)) d v =
    enter-Inv g s (entry (acquires k)) refl (λ _. refl)
      (enter-Flow g s (entry (acquires k)) (λ _. refl) (λ _. refl) refl v.flow) v
exec-Inv g s (call (kills k)) d v =
    enter-Inv g s (entry (kills k)) refl (λ _. refl)
      (enter-Flow g s (entry (kills k)) (λ _. refl) (λ _. refl) refl v.flow) v
exec-Inv g s (call (releases k w)) d v = absurd d
exec-Inv g s (call (crashes k)) d v = absurd d
exec-Inv g s (turn i e) d v = elim (Option-cases (get_elem? s.tasks i)) [
  | inl out ↦ rw (out, exec) v
  | inr (t, at) ↦ rw (at, exec) (turn-Inv g s i e t at v (deletes e t d))
]

-- Where no `Delete` of `KillWorker` fails, the accounts of tickets and workers are balanced as well.
pub run-start-Inv :
    (g : Config) (es : List Event) → All IsReliableCall es → Alive (Inv g) (run (start g) es)
run-start-Inv g es d = run_keeps (Inv g) IsReliableCall (exec-Inv g) (start g) es d (start-Inv g)
