-- ===== src/Daemon/Runtime.antt =====
-- internal/daemon/runtime.go: the routes of the data plane, the metrics that it shows, and
-- ListenUnixSocket. Of http.ServeMux the parser of patterns and the test for a conflict are
-- parameters; a pattern that is not parsed or conflicts with a registered one panics. `route` is
-- the documented choice for a request with a clean path where the patterns have no method, host,
-- wildcard or escape: a pattern with a slash at its end stands for all paths below it, and the most
-- specific one is taken. 47 is '/'.
use herd.Common.{
  ℕ, Bool, true, false, not, ◌&&◌, ◌||◌, List, [], ◌∷◌, Option, none, some, if◌then◌else◌, ◌==◌,
  length, ltb,
}
use herd.Common.Text.{Text, codes, text_eq}
use herd.Common.Split.{has_prefix}
use herd.Pool.State.{Pool}
use herd.Pool.Teardown.{stats}
use herd.Daemon.Defs.{Counters}

pub data Handler : Type 0 where
  healthz metrics forward : Handler

abbrev pub Routes : Type 0
Routes = List (Text × Handler)

-- The handler registered for exactly this pattern.
unfoldable pub exact : Text → Routes → Option Handler
exact path [] = none
exact path ((p, h) ∷ rs) = let rest = exact path rs in if text_eq p path then some h else rest

-- Whether a pattern is parsed, and whether two of them conflict.
pub record Patterns : Type 0 where
  pub parses : Text → Bool
  pub conflict : Text → Text → Bool

module _ (ps : Patterns) where
  unfoldable pub conflicts : Text → Routes → Bool
  conflicts path [] = false
  conflicts path ((p, h) ∷ rs) = ps.conflict p path || conflicts path rs

  -- `Handle` and `HandleFunc` of the mux; `none` is a panic.
  unfoldable pub register : Text → Handler → Option Routes → Option Routes
  register path h none = none
  register path h (some rs) =
      if ps.parses path && not (conflicts path rs) then some ((path, h) ∷ rs) else none

  -- `NewDataPlaneHandler`
  unfoldable pub new_data_plane_handler : Text → Option Routes
  new_data_plane_handler metrics_path =
      register (codes "/") forward
        (register metrics_path metrics (register (codes "/healthz") healthz (some [])))

unfoldable pub ends_with_slash : Text → Bool
ends_with_slash [] = false
ends_with_slash (c ∷ []) = c == 47
ends_with_slash (c ∷ d ∷ t) = ends_with_slash (d ∷ t)

-- The longer of two patterns with their handlers.
abbrev pub longer : Text × Handler → Option (Text × Handler) → Option (Text × Handler)
longer r none = some r
longer (p, h) (some (q, g)) = if ltb (length p) (length q) then some (q, g) else some (p, h)

-- The longest of the patterns below which the path lies.
unfoldable pub below : Text → Routes → Option (Text × Handler)
below path [] = none
below path ((p, h) ∷ rs) =
    let rest = below path rs in
    if ends_with_slash p then (if has_prefix p path then longer (p, h) rest else rest) else rest

unfoldable pub route : Text → Routes → Option Handler
route path rs = elim (exact path rs) [
  | some h ↦ some h
  | none ↦ elim (below path rs) [ none ↦ none | some (p, h) ↦ some h ]
]

-- The values of `MetricsHandler`, in the order of the text; the gauge of draining sessions stays 0.
unfoldable pub metric_values : Pool → Counters → List ℕ
metric_values p c =
    let s = stats p in
    s.total_workers ∷ s.active_sessions ∷ 0 ∷ s.inflight_acquires ∷ c.acquire_requests
    ∷ c.acquire_failures ∷ c.sessions_started ∷ c.sessions_killed ∷ []

-- What `Remove`, `Listen` and `Chmod` answer for a path: the first is true where nothing is there
-- afterwards.
pub record Socket : Type 0 where
  pub removes : Bool
  pub listens : Bool
  pub restricts : Bool

pub data ListenError : Type 0 where
  not_removed not_bound not_restricted : ListenError

-- `ListenUnixSocket`: whether a listener is left open, and the error.
unfoldable pub listen_unix_socket : Socket → Bool × Option ListenError
listen_unix_socket s =
    if not s.removes
    then (false, some not_removed)
    else if not s.listens
    then (false, some not_bound)
    else if s.restricts
    then (true, none)
    else (false, some not_restricted)
