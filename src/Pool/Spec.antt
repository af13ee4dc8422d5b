-- ===== src/Pool/Spec.antt =====
-- The abstract view of the pool (pool.go): each session is idle, on its way to a worker, or pinned to
-- one. The order and representation of the registry and of `inflight`, the channels and the tickets
-- are forgotten; of the goroutines each has the one thing that it may do next.
use herd.Common.{◌≡◌, ◌≢◌, ◌⊎◌, List, [], ◌∷◌, none, some, lookup, get_elem?}
use herd.Pool.State.{SessionId, Worker, Pool, Task, seeking, dropping, pinning, killing}
use herd.Pool.System.{System, Event, call, turn, running, dead, exec}

pub data Phase : Type 0 where
  idle busy : Phase
  pinned : Worker → Phase

-- What is done to a session: `Acquire` claims it, binds it to the worker that it has spawned, or gives
-- it up, and `KillWorker` evicts its worker.
pub data SessionMove : Type 0 where
  claim give_up evict nothing : SessionMove
  bind_to : Worker → SessionMove

-- From which phase a move leads to which: only from idle to a claim, only from a claim to a worker,
-- and never from one worker to another.
abbrev pub Leads : SessionMove → Phase → Phase → Type 0
Leads claim idle u = u ≡ busy
Leads give_up busy u = u ≡ idle
Leads evict (pinned w) u = u ≡ idle
Leads (bind_to w) busy u = u ≡ pinned w
Leads _ v u = ⊥

abbrev pub View : Type 0
View = SessionId → Phase

abbrev pub Label : Type 0
Label = SessionId × SessionMove

-- The session of the label makes the label's move or none, and the others stay as they are.
abbrev pub Transition : Label → View → View → Type 0
Transition (s, a) v u = ((u s ≡ v s) ⊎ Leads a (v s) (u s)) × ((k : SessionId) → s ≢ k → u k ≡ v k)

-- Runs of the abstract machine, with what was done in them.
pub data SpecRun : View → List Label → View → Type 0 where
  stay : (v : View) → SpecRun v [] v
  move_then :
      (v u t : View) (l : Label) (ls : List Label)
      → Transition l v u
      → SpecRun u ls t
      → SpecRun v (l ∷ ls) t

-- The view of a pool.
abbrev pub phase : Pool → View
phase p s = elim (lookup s p.registry) [
  | some w ↦ pinned w
  | none ↦ elim (lookup s p.inflight) [ some ch ↦ busy | none ↦ idle ]
]

-- What a goroutine may do next, and to which session: that of the call that it runs.
abbrev pub label : Task → Label
label (seeking s) = (s, claim)
label (dropping s ch) = (s, give_up)
label (pinning s ch w) = (s, bind_to w)
label (killing s) = (s, evict)
label t = (0, nothing)

abbrev pub label_of : System → Event → Label
label_of s (call c) = (0, nothing)
label_of s (turn i e) = elim (get_elem? s.tasks i) [ none ↦ (0, nothing) | some t ↦ label t ]

-- What the goroutines of a schedule may do, in its order.
unfoldable pub trace : System → List Event → List Label
trace s [] = []
trace s (e ∷ es) = label_of s e ∷ elim (exec s e) [ running s' ↦ trace s' es | dead ↦ [] ]
