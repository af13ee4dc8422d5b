-- ===== src/Daemon/Routes.antt =====
-- Where the requests to the data plane go.
use herd.Common.{◌≡◌, Bool, true, ◌||◌, ◌&&◌, not, ℕ, ◌==◌, All, [], ◌∷◌, if◌then◌else◌}
use herd.Common.Text.{Text, codes, text_eq}
use herd.Common.Split.{has_prefix}
use herd.Daemon.Runtime.{Handler, healthz, metrics, forward, Routes, Patterns}

-- A pattern without a method, host, wildcard or escape: no space, tab, brace or percent sign.
abbrev pub is_plain : ℕ → Bool
is_plain c = not (c == 32) && not (c == 9) && not (c == 123) && not (c == 37)

abbrev pub IsPlain : Text → Type 0
IsPlain p = (has_prefix (codes "/") p ≡ true) × All (λ (c : ℕ). is_plain c ≡ true) p

-- http.ServeMux: a plain pattern is parsed, and two of them conflict only if they are the same.
pub record Documented (ps : Patterns) : Type 0 where
  pub plain_parses : (p : Text) → IsPlain p → ps.parses p ≡ true
  pub plain_conflict : (p q : Text) → IsPlain p → IsPlain q → ps.conflict p q ≡ text_eq p q

abbrev routes : Text → Routes
routes path = (codes "/", forward) ∷ (path, metrics) ∷ (codes "/healthz", healthz) ∷ []

abbrev pub is_taken : Text → Bool
is_taken path = text_eq (codes "/healthz") path || text_eq (codes "/") path

abbrev handler_for : Text → Text → Handler
handler_for path q =
    if text_eq path q then metrics else if text_eq (codes "/healthz") q then healthz else forward
