-- ===== src/Pool/Affinity.antt =====
-- One session, one worker: what `Acquire` returns, alone and against other calls of `Acquire`.
use herd.Common.{
  All, ℕ, ◌≡◌, ◌≢◌, refl, sym, subst, inl, inr, List, [], ◌∷◌, none, some, Option-cases, arith,
  lookup, get_elem?, get_elem?-set, get_elem?-snoc, lookup-insert, lookup-some,
}
use herd.Pool.State.{
  SessionId, Worker, Config, Pool, Task, Env, Outcome, ran, blocked, panicked, seeking, signalling,
  pinning, acquired, killing, releasing, crashing, returning,
}
use herd.Pool.System.{
  step, acquires, kills, releases, crashes, Event, call, turn, System, Status, running, dead,
  settle, exec, run, start,
}
use herd.Pool.Ledger.Local.{Local}
use herd.Pool.Ledger.Moves.{step-survives}
use herd.Pool.Flow.{Flow, Alive, Alive-at, IsDaemonCall, Flow-Local, start-Flow, exec-Flow}

-- What a goroutine that has its worker relies on.
abbrev pub Claims : Pool → Task → Type 0
Claims p (acquired s w) = lookup s p.registry ≡ some w
Claims p (signalling s ch (some w)) = lookup s p.registry ≡ some w
Claims p (killing s) = ⊥
Claims p _ = Unit {0}

abbrev ClaimsAfter : Outcome → Type 0
ClaimsAfter (ran q u) = Claims q u
ClaimsAfter blocked = Unit {0}
ClaimsAfter panicked = Unit {0}

abbrev KeepsPin : SessionId → Worker → Outcome → Type 0
KeepsPin k w (ran q u) = lookup k q.registry ≡ some w
KeepsPin k w blocked = Unit {0}
KeepsPin k w panicked = Unit {0}

step-ClaimsAfter :
    (e : Env) (p : Pool) (t : Task) → Local p t → Claims p t → ClaimsAfter (step e p t)
unfolding step
step-ClaimsAfter e p (pinning s ch w) l h = ground (arith, lookup-insert s s w p.registry)
step-ClaimsAfter e p (signalling s ch none) l h = ground arith
step-ClaimsAfter e p (signalling s ch (some w)) l h = ground arith
step-ClaimsAfter e p (returning none) l h = ground arith
step-ClaimsAfter e p (returning (some s)) l h = ground arith
step-ClaimsAfter e p (crashing s) l h = absurd (omega (arith, l.calm))
step-ClaimsAfter e p (releasing s w) l h = absurd (omega (arith, l.calm))
step-ClaimsAfter e p (killing s) l h = absurd h
step-ClaimsAfter e p _ l h = ground arith

step-KeepsPin :
    (k : SessionId) (v : Worker) (e : Env) (p : Pool) (t : Task)
    → Local p t
    → Claims p t
    → lookup k p.registry ≡ some v
    → KeepsPin k v (step e p t)
unfolding step
step-KeepsPin k v e p (pinning s ch w) l h g =
    ground
      (arith, l.held k, l.exclusive k, lookup-some k p.registry v, lookup-insert s k w p.registry)
step-KeepsPin k v e p (signalling s ch none) l h g = ground arith
step-KeepsPin k v e p (signalling s ch (some w)) l h g = ground arith
step-KeepsPin k v e p (returning none) l h g = ground arith
step-KeepsPin k v e p (returning (some s)) l h g = ground arith
step-KeepsPin k v e p (crashing s) l h g = absurd (omega (arith, l.calm))
step-KeepsPin k v e p (releasing s w) l h g = absurd (omega (arith, l.calm))
step-KeepsPin k v e p (killing s) l h g = absurd h
step-KeepsPin k v e p _ l h g = ground arith

carry :
    (p q : Pool) (x : Task)
    → ((k : SessionId) (w : Worker) → lookup k p.registry ≡ some w → lookup k q.registry ≡ some w)
    → Claims p x
    → Claims q x
carry p q (acquired s w) keep h = keep s w h
carry p q (signalling s ch (some w)) keep h = keep s w h
carry p q (signalling s ch none) keep h = tt
carry p q (killing s) keep h = absurd h
carry p q _ keep h = tt

abbrev AllClaims : System → Type 0
AllClaims s = (i : ℕ) (t : Task) → get_elem? s.tasks i ≡ some t → Claims s.pool t

settle-AllClaims :
    (s : System) (i : ℕ) (o : Outcome)
    → o ≢ panicked
    → AllClaims s
    → ClaimsAfter o
    → ((k : SessionId) (w : Worker) → lookup k s.pool.registry ≡ some w → KeepsPin k w o)
    → Alive AllClaims (settle s i o)
settle-AllClaims s i (ran q u) n a c k = λ j x h. elim (get_elem?-set s.tasks u x i j h) [
  | inl old ↦ carry s.pool q x k (a j x old)
  | inr e ↦ subst (Claims q) (sym e) c
]
settle-AllClaims s i blocked n a c k = a
settle-AllClaims s i panicked n a c k = absurd (n refl)

-- Calls of `Acquire` alone.
abbrev pub IsAcquire : Event → Type 0
IsAcquire (call (acquires s)) = Unit {0}
IsAcquire (call (kills s)) = ⊥
IsAcquire (call (releases s w)) = ⊥
IsAcquire (call (crashes s)) = ⊥
IsAcquire (turn i e) = Unit {0}

IsAcquire-IsDaemonCall : (e : Event) → IsAcquire e → IsDaemonCall e
IsAcquire-IsDaemonCall (call (acquires s)) h = tt
IsAcquire-IsDaemonCall (call (kills s)) h = absurd h
IsAcquire-IsDaemonCall (call (releases s w)) h = absurd h
IsAcquire-IsDaemonCall (call (crashes s)) h = absurd h
IsAcquire-IsDaemonCall (turn i e) h = tt

exec-AllClaims :
    (g : Config) (s : System) (e : Event)
    → IsAcquire e
    → Flow g s
    → AllClaims s
    → Alive AllClaims (exec s e)
unfolding exec
exec-AllClaims g s (call (acquires k)) d v a = λ i t h.
    elim (get_elem?-snoc s.tasks (seeking k) t i h) [
      | inl old ↦ a i t old
      | inr e ↦ subst (Claims s.pool) (sym e) tt
    ]
exec-AllClaims g s (call (kills k)) d v a = absurd d
exec-AllClaims g s (call (releases k w)) d v a = absurd d
exec-AllClaims g s (call (crashes k)) d v a = absurd d
exec-AllClaims g s (turn i e) d v a = elim (Option-cases (get_elem? s.tasks i)) [
  | inl out ↦ rw (out, exec) a
  | inr (t, at) ↦
      let l = Flow-Local g s i t at v in
      rw (at, exec)
        (settle-AllClaims s i (step e s.pool t) (step-survives e s.pool t l) a
          (step-ClaimsAfter e s.pool t l (a i t at))
          (λ k w. step-KeepsPin k w e s.pool t l (a i t at)))
]

run_next :
    (g : Config) (st : Status) (es : List Event)
    → Alive (Flow g) st
    → Alive AllClaims st
    → ((s : System) → Flow g s → AllClaims s → Alive AllClaims (run s es))
    → Alive AllClaims (elim st [ running s' ↦ run s' es | dead ↦ dead ])
run_next g (running s) es v a next = next s v a
run_next g dead es v a next = absurd v

run-AllClaims :
    (g : Config) (s : System) (es : List Event)
    → All IsAcquire es
    → Flow g s
    → AllClaims s
    → Alive AllClaims (run s es)
unfolding run
run-AllClaims g s [] d v a = a
run-AllClaims g s (e ∷ es) d v a =
    run_next g (exec s e) es (exec-Flow g s e (IsAcquire-IsDaemonCall e d.0) v)
      (exec-AllClaims g s e d.0 v a) (λ s' v' a'. run-AllClaims g s' es d.1 v' a')

run-start-AllClaims :
    (c : Config) (es : List Event) → All IsAcquire es → Alive AllClaims (run (start c) es)
run-start-AllClaims c es d =
    run-AllClaims c (start c) es d (start-Flow c) (λ i t h. unfold start in cc h)

-- On a new pool, however concurrent calls of `Acquire` are interleaved and whichever of them
-- fail, all calls for one session that have returned a worker returned the same, which is pinned.
pub acquire_affine :
    (c : Config) (es : List Event) (s : System) (k : SessionId) (i j : ℕ) (v w : Worker)
    → All IsAcquire es
    → run (start c) es ≡ running s
    → get_elem? s.tasks i ≡ some (acquired k v)
    → get_elem? s.tasks j ≡ some (acquired k w)
    → (v ≡ w) × (lookup k s.pool.registry ≡ some v)
acquire_affine c es s k i j v w d e hi hj =
    let a = Alive-at AllClaims (run (start c) es) s e (run-start-AllClaims c es d) in
    (cc (a i (acquired k v) hi, a j (acquired k w) hj), a i (acquired k v) hi)
