-- ===== src/Pool/Safety.antt =====
-- What the pool promises in every state that calls of `Acquire` and `KillWorker` reach.
use herd.Common.{
  All, ℕ, ◌+◌, ◌≤◌, ◌<◌, ◌≡◌, ap, inl, inr, not, List, some, Bool-cases, one, arith, total,
  weight-le-total, length, get_elem?,
}
use herd.Pool.State.{SessionId, Config, Task, ran, is_member, send_ticket}
use herd.Pool.System.{System, Event, Status, running, dead, run, start}
use herd.Pool.Ledger.Weights.{in_hand, holds, closes}
use herd.Pool.Ledger.Local.{is_member-total, not-member-total}
use herd.Pool.Flow.{Flow, IsDaemonCall, Alive, Alive-at, run-start-Flow}
use herd.Pool.Invariant.{Inv, IsReliableCall, run-start-Inv}

weaken :
    (Φ Ψ : System → Type 0) (st : Status) → ((s : System) → Φ s → Ψ s) → Alive Φ st → Alive Ψ st
weaken Φ Ψ (running s) f a = f s a
weaken Φ Ψ dead f a = a

-- `config.max` never changes.
abbrev pub Capped : ℕ → System → Type 0
Capped max s =
    (s.pool.config.max ≡ max)
    × (s.pool.tickets + length s.pool.workers + total in_hand s.tasks ≡ max)
    × (length s.pool.workers ≤ max)

Inv-Capped : (c : Config) (s : System) → Inv c s → Capped c.max s
Inv-Capped c s v =
    let e : s.pool.config.max ≡ c.max = ap (λ (d : Config). d.max) v.flow.config in
    (e, omega (arith, v.ticket_book), omega (arith, v.ticket_book))

-- However calls of `Acquire` and `KillWorker` on a new pool are interleaved, and whichever of their
-- own calls fail but the registry's `Delete` in `KillWorker`, no goroutine panics; the tickets in
-- the channel, the tracked workers and the goroutines between the two add up to the configured
-- maximum, so that the pool never tracks more workers than that.
pub run-Capped :
    (c : Config) (es : List Event) → All IsReliableCall es → Alive (Capped c.max) (run (start c) es)
run-Capped c es d =
    weaken (Inv c) (Capped c.max) (run (start c) es) (Inv-Capped c) (run-start-Inv c es d)

-- At most one goroutine is between making the `inflight` entry of a session and dropping it.
abbrev pub Singleflight : System → Type 0
Singleflight s = (k : SessionId) → total (holds k) s.tasks ≤ 1

Flow-Singleflight : (c : Config) (s : System) → Flow c s → Singleflight s
Flow-Singleflight c s v k = omega (arith, v.flight_book k, v.exclusive k)

-- In every state that calls of `Acquire` and `KillWorker` on a new pool reach, at most one
-- goroutine is spawning a worker for a session, or waits for capacity to do so.
pub run-Singleflight :
    (c : Config) (es : List Event) → All IsDaemonCall es → Alive Singleflight (run (start c) es)
run-Singleflight c es d =
    weaken (Flow c) Singleflight (run (start c) es) (Flow-Singleflight c) (run-start-Flow c es d)

channel_fate :
    (g : Config) (s : System) (c : ℕ)
    → Flow g s
    → c < s.pool.next_chan
    → total (closes c) s.tasks ≡ one (not (is_member c s.pool.closed))
channel_fate g s c v lt = elim (Bool-cases (is_member c s.pool.closed)) [
  | inl shut ↦ ground (arith, v.channel_book c, is_member-total c s.pool.closed shut)
  | inr still ↦ ground (arith, v.channel_book c, not-member-total c s.pool.closed still)
]

-- No wake-up is lost: in every state that calls of `Acquire` and `KillWorker` on a new pool reach,
-- the number of goroutines that are still to close a channel which was made for `inflight` is one,
-- or none if the channel is closed already.
pub channel_closer :
    (g : Config) (es : List Event) (s : System) (c : ℕ)
    → All IsDaemonCall es
    → run (start g) es ≡ running s
    → c < s.pool.next_chan
    → total (closes c) s.tasks ≡ one (not (is_member c s.pool.closed))
channel_closer g es s c d e lt =
    channel_fate g s c (Alive-at (Flow g) (run (start g) es) s e (run-start-Flow g es d)) lt

send_room :
    (c : Config) (s : System) (i : ℕ) (t u : Task)
    → Inv c s
    → get_elem? s.tasks i ≡ some t
    → in_hand t ≡ 1
    → send_ticket s.pool u ≡ ran (record s.pool { tickets = s.pool.tickets + 1 }) u
unfolding send_ticket
send_room c s i t u v ti h = ground (arith, weight-le-total in_hand s.tasks i t ti, v.ticket_book)

-- In every state that calls of `Acquire` and `KillWorker` on a new pool reach, if no `Delete` of
-- `KillWorker` fails, a goroutine that has a ticket to give back does so without blocking.
pub send_ticket_free :
    (c : Config) (es : List Event) (s : System) (i : ℕ) (t u : Task)
    → All IsReliableCall es
    → run (start c) es ≡ running s
    → get_elem? s.tasks i ≡ some t
    → in_hand t ≡ 1
    → send_ticket s.pool u ≡ ran (record s.pool { tickets = s.pool.tickets + 1 }) u
send_ticket_free c es s i t u d e ti h =
    send_room c s i t u (Alive-at (Inv c) (run (start c) es) s e (run-start-Inv c es d)) ti h
