-- ===== src/Lifecycle/Sweep.antt =====
-- Whom the reaper's sweep kills.
use herd.Common.{
  ℕ, ◌+◌, ◌≤◌, ◌<◌, ◌≡◌, ◌⊎◌, ◌↔◌, refl, sym, ◌∙◌, List, [], ◌∷◌, ◌++◌, Option, none, some, ◌==◌,
  if◌then◌else◌, lookup, delete, lookup-delete, bound, arith,
}
use herd.Common.Int.{pos}
use herd.Lifecycle.Defs.{
  SessionState, Manager, Kill, Reason, verdict, unregister_and_kill, sweep_loop, sweep, get_session,
}

-- Why a session was killed, once for each time.
abbrev pub kills_of : ℕ → List Kill → List Reason
kills_of k [] = []
kills_of k (x ∷ xs) = let rest = kills_of k xs in if x.session == k then x.reason ∷ rest else rest

kills_of-append :
    (k : ℕ) (xs ys : List Kill) → kills_of k (xs ++ ys) ≡ kills_of k xs ++ kills_of k ys
kills_of-append k [] ys = refl
kills_of-append k (x ∷ xs) ys = ground (arith, kills_of-append k xs ys)

loop_absent :
    (now k : ℕ) (snapshot m : Manager)
    → bound k snapshot ≡ 0
    → (lookup k (sweep_loop now snapshot m).0 ≡ lookup k m)
      × (kills_of k (sweep_loop now snapshot m).1 ≡ [])
unfolding sweep_loop unregister_and_kill
loop_absent now k [] m h = (refl, refl)
loop_absent now k ((s, x) ∷ snapshot) m h = ground (
  arith,
  loop_absent now k snapshot m,
  loop_absent now k snapshot (delete s m),
  lookup-delete s k m,
)

abbrev pub survives : Option Reason → SessionState → Option SessionState
survives none x = some x
survives (some r) x = none

abbrev pub reasons : Option Reason → List Reason
reasons none = []
reasons (some r) = r ∷ []

loop_present :
    (now k : ℕ) (snapshot m : Manager) (x : SessionState)
    → bound k snapshot ≤ 1
    → lookup k snapshot ≡ some x
    → lookup k m ≡ some x
    → (lookup k (sweep_loop now snapshot m).0 ≡ survives (verdict now x) x)
      × (kills_of k (sweep_loop now snapshot m).1 ≡ reasons (verdict now x))
unfolding sweep_loop unregister_and_kill lookup
loop_present now k [] m x b h e = cc
loop_present now k ((s, y) ∷ snapshot) m x b h e = ground (
  arith,
  loop_absent now k snapshot m,
  loop_absent now k snapshot (delete s m),
  loop_present now k snapshot m x,
  loop_present now k snapshot (delete s m) x,
  lookup-delete s k m,
)

-- `sweep` decides on each session by its own state alone: one for which a rule applies is removed and
-- killed once, for that rule's reason, and any other keeps its state and is not killed.
pub sweep_lem :
    (now k : ℕ) (m : Manager) (x : SessionState)
    → bound k m ≤ 1
    → lookup k m ≡ some x
    → (get_session k (sweep now m).0 ≡ survives (verdict now x) x)
      × (kills_of k (sweep now m).1 ≡ reasons (verdict now x))
unfolding sweep get_session
sweep_lem now k m x b h = loop_present now k m m x b h h

-- The limits of a session, as numbers.
module _ (now a i n : ℕ) (x : SessionState) (ea : x.absolute_ttl ≡ pos a) (ei : x.idle_ttl ≡ pos i)
    (en : x.active_conns ≡ pos n) where
  abbrev IsWithin : Type 0
  IsWithin =
      ((a ≡ 0) ⊎ (now ≤ x.created_at + a)) × ((i ≡ 0) ⊎ (0 < n) ⊎ (now ≤ x.last_data_activity + i))

  survives_within : survives (verdict now x) x ≡ some x → IsWithin
  unfolding verdict
  survives_within s = (ground arith, ground arith)

  within_survives : IsWithin → survives (verdict now x) x ≡ some x
  unfolding verdict
  within_survives w = ground arith

-- `sweep` of a session whose limits and number of connections are not negative keeps the session
-- exactly if it has no absolute limit or is within it, and it has no idle limit, or a connection, or
-- was active within the limit.
pub sweep-keeps_iff :
    (now k a i n : ℕ) (m : Manager) (x : SessionState)
    → bound k m ≤ 1
    → lookup k m ≡ some x
    → x.absolute_ttl ≡ pos a
    → x.idle_ttl ≡ pos i
    → x.active_conns ≡ pos n
    → (get_session k (sweep now m).0 ≡ some x) ↔ (
        ((a ≡ 0) ⊎ (now ≤ x.created_at + a))
        × ((i ≡ 0) ⊎ (0 < n) ⊎ (now ≤ x.last_data_activity + i)))
sweep-keeps_iff now k a i n m x b h ea ei en = (
  λ s. survives_within now a i n x ea ei en (sym e ∙ s),
  λ w. e ∙ within_survives now a i n x ea ei en w,
)
  where
    e : get_session k (sweep now m).0 ≡ survives (verdict now x) x
    e = (sweep_lem now k m x b h).0
