-- ===== src/Proxy/Requests.antt =====
-- What a request through the proxy answers, and that it leaves the session's lease balanced.
use herd.Common.{
  ℕ, ◌≡◌, ◌≢◌, true, false, not, [], ◌∷◌, Option, none, some, ◌==◌, lookup, if◌then◌else◌, arith,
}
use herd.Common.Int.{pos}
use herd.Pool.State.{Pool, Worker, get}
use herd.Pool.Acquire.{get_session}
use herd.Lifecycle.Defs.{
  SessionState, Manager, Kill, data_plane_deadlock, begin_request, end_request, modify,
}
use herd.Lifecycle.Defs as Leases
use herd.Lifecycle.Sessions.{end-begin_request, end_request-deadline}
use herd.Proxy.Defs.{ReverseProxy, Request, forward, route, serve_http}

module _ (acquire : ℕ → Pool → Pool × Option Worker) where
  -- The data plane's proxy only looks sessions up: it leaves the pool alone and answers 400 without a
  -- session id, 500 if the lookup fails, 404 if the session is unknown, 500 if the worker's address
  -- does not parse, 502 if the upstream fails, and otherwise what the upstream answers.
  pub serve_http-lookup_only :
      (rp : ReverseProxy) (r : Request) (p : Pool) (m : Manager)
      → rp.lookup_only ≡ true
      → ((serve_http acquire rp r p m).pool ≡ p)
        × ((serve_http acquire rp r p m).status ≡ (
            if r.session == 0
            then 400
            else if r.env.fail
            then 500
            else elim (get r.session p.registry) [
              | none ↦ 404
              | some w ↦
                  if not r.address_ok
                  then 500
                  else elim r.upstream [ none ↦ 502 | some code ↦ code ]
            ]))
  unfolding serve_http route forward get_session get
  serve_http-lookup_only rp r p m h = ground arith

  -- Whatever a request of a leased session answers, if it ends before its deadline then the lease has
  -- as many active connections as before and only the time of its last activity changes; other
  -- leases stay as they are, and nobody is killed.
  pub serve_http-balanced :
      (rp : ReverseProxy) (r : Request) (p : Pool) (m : Manager) (k n : ℕ) (x : SessionState)
      → rp.has_manager ≡ true
      → r.session ≢ 0
      → r.deadline ≡ false
      → lookup r.session m ≡ some x
      → x.active_conns ≡ pos n
      → (lookup k (serve_http acquire rp r p m).manager ≡ (
          if r.session == k
          then some (record x { last_data_activity = r.ended_at })
          else lookup k m))
        × ((serve_http acquire rp r p m).kills ≡ [])
  unfolding serve_http Leases.get_session
  serve_http-balanced rp r p m k n x h z d e c =
      ground (arith, end-begin_request r.ended_at r.session k n m x e c)

  -- A request of a leased session whose deadline has passed when it ends removes the lease and asks
  -- for its worker to be killed, once.
  pub serve_http-deadline :
      (rp : ReverseProxy) (r : Request) (p : Pool) (m : Manager) (x : SessionState)
      → rp.has_manager ≡ true
      → r.session ≢ 0
      → r.deadline ≡ true
      → lookup r.session m ≡ some x
      → (lookup r.session (serve_http acquire rp r p m).manager ≡ none)
        × ((serve_http acquire rp r p m).kills
            ≡ record { session = r.session; reason = data_plane_deadlock } ∷ [])
  unfolding serve_http
  serve_http-deadline rp r p m x h z d e =
      ground (arith, end_request-deadline r.ended_at r.session m x e)
