-- ===== src/Lifecycle/Sessions.antt =====
-- What the manager's calls do to one session, and that they leave the others alone.
use herd.Common.{
  ℕ, ◌+◌, ◌≡◌, inl, inr, true, false, [], ◌∷◌, none, some, Option-cases, ◌==◌, if◌then◌else◌,
  lookup, insert, lookup-insert, lookup-delete, arith,
}
use herd.Common.Int.{pos}
use herd.Lifecycle.Defs.{
  SessionState, Manager, data_plane_deadlock, get_session, modify, begin_request, end_request,
  end_state, up,
}

-- `modify` changes the state of its session, if there is one, and nothing else.
pub lookup-modify :
    (f : SessionState → SessionState) (s k : ℕ) (m : Manager)
    → lookup k (modify f s m)
      ≡ (if s == k then elim (lookup k m) [ none ↦ none | some x ↦ some (f x) ] else lookup k m)
unfolding modify
lookup-modify f s k m = elim (Option-cases (lookup s m)) [
  | inl e ↦ ground arith
  | inr (x, e) ↦ ground (arith, lookup-insert s k (f x) m)
]

-- A request that begins and then ends before its deadline leaves the number of active connections of
-- its session, and all else but the time of its last activity, as it was; other sessions do not
-- change, and nobody is killed.
pub end-begin_request :
    (now s k n : ℕ) (m : Manager) (x : SessionState)
    → lookup s m ≡ some x
    → x.active_conns ≡ pos n
    → let r = end_request now s false (begin_request s m) in
      (get_session k r.0
        ≡ (if s == k then some (record x { last_data_activity = now }) else get_session k m))
      × (r.1 ≡ [])
unfolding end_request begin_request modify get_session
end-begin_request now s k n m x e c = ground (
  arith,
  lookup-insert s k (record x { active_conns = pos (n + 1) }) m,
  lookup-insert s s (record x { active_conns = pos (n + 1) }) m,
  lookup-insert s k (record x { active_conns = pos n; last_data_activity = now })
      (insert s (record x { active_conns = pos (n + 1) }) m),
)

-- A request whose deadline has passed when it ends removes its session and kills it.
pub end_request-deadline :
    (now s : ℕ) (m : Manager) (x : SessionState)
    → lookup s m ≡ some x
    → let r = end_request now s true (begin_request s m) in
      (lookup s r.0 ≡ none) × (r.1 ≡ record { session = s; reason = data_plane_deadlock } ∷ [])
unfolding end_request begin_request modify
end_request-deadline now s m x e = ground (
  arith,
  lookup-insert s s (record x { active_conns = up x.active_conns }) m,
  lookup-delete s s (
      insert s (end_state now (record x { active_conns = up x.active_conns }))
        (insert s (record x { active_conns = up x.active_conns }) m)),
)
