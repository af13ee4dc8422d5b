-- ===== src/Proxy/Defs.antt =====
-- proxy/proxy.go: `ServeHTTP`. The session id is a number, 0 for the empty string.
use herd.Common.{ℕ, ◌==◌, Bool, List, [], Option, none, some, if◌then◌else◌}
use herd.Pool.State.{Pool, Worker, Env}
use herd.Pool.Acquire.{get_session}
use herd.Lifecycle.Defs.{Manager, Kill, begin_request, end_request}

-- `ReverseProxy`: whether a lifecycle manager was given, and `LookupOnly`.
pub record ReverseProxy : Type 0 where
  pub has_manager : Bool
  pub lookup_only : Bool

-- A request, with what its environment does: whether the registry's lookup fails, whether url.Parse
-- reads the worker's address, the upstream's status (or none, for an upstream that fails), the time
-- at which the response is written, and whether the request's deadline has then passed.
pub record Request : Type 0 where
  pub session : ℕ
  pub env : Env
  pub address_ok : Bool
  pub upstream : Option ℕ
  pub ended_at : ℕ
  pub deadline : Bool

pub record Response : Type 0 where
  pub status : ℕ
  pub pool : Pool
  pub manager : Manager
  pub kills : List Kill

-- From the worker's address on.
unfoldable pub forward : Request → ℕ
forward r = if r.address_ok then elim r.upstream [ none ↦ 502 | some code ↦ code ] else 500

-- What `Pool.Acquire` does to the pool, and the worker that it returns.
module _ (acquire : ℕ → Pool → Pool × Option Worker) where
  unfoldable pub route : ReverseProxy → Request → Pool → ℕ × Pool
  route rp r p =
      if rp.lookup_only
      then (
        elim (get_session r.env p r.session) [
          | none ↦ 500
          | some none ↦ 404
          | some (some w) ↦ forward r
        ],
        p,
      )
      else (let (p', w) = acquire r.session p in (elim w [ none ↦ 503 | some _ ↦ forward r ], p'))

  unfoldable pub serve_http : ReverseProxy → Request → Pool → Manager → Response
  serve_http rp r p m =
      if r.session == 0
      then record { status = 400; pool = p; manager = m; kills = [] }
      else let (status, p') = route rp r p in
        if rp.has_manager
        then (let (m', kills) =
              end_request r.ended_at r.session r.deadline (begin_request r.session m) in
            record { status = status; pool = p'; manager = m'; kills = kills })
        else record { status = status; pool = p'; manager = m; kills = [] }
