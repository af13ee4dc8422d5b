-- ===== src/Pool/Registry.antt =====
-- The copy of the registry that `List` makes.
use herd.Common.{◌≡◌, ◌∙◌, refl, ap, ◌∷◌, [], if◌then◌else◌, some, ◌==◌, lookup, lookup-insert}
use herd.Pool.State.{SessionId, Registry, get, list_workers}

-- `List` answers for each session the worker that `Get` answers, and no other sessions.
pub get-list_workers : (s : SessionId) (r : Registry) → get s (list_workers r) ≡ get s r
unfolding get list_workers lookup
get-list_workers s [] = refl
get-list_workers s ((j, w) ∷ r) =
    lookup-insert j s w (list_workers r)
    ∙ ap (λ x. if j == s then some w else x) (get-list_workers s r)
