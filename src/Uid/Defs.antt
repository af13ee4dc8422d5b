-- ===== src/Uid/Defs.antt =====
-- internal/uid/pool.go. The channel is the list of its buffered ids, the next to be received first.
use herd.Common.{
  ℕ, zero, suc, ◌+◌, ◌^◌, ◌++◌, ◌||◌, ◌⊎◌, inl, inr, List, [], ◌∷◌, Option, none, some, ltb, leb,
  if◌then◌else◌, length,
}
use herd.Common.Int.{ℤ, pos_part, is_positive}
use mathlib.Core.Bool.{not}

pub record Pool : Type 0 where
  pub ch : List ℕ
  pub cap : ℕ
  pub first : ℕ
  pub last : ℕ

-- The last two are no errors of Go: `make` panics, or the end of the range wraps around to a negative
-- number, with which every `Return` is refused. Ids are numbers here, so that pool is not described.
pub data Error : Type 0 where
  bad_start bad_size exhausted out_of_range already_full chan_panics range_wraps : Error

unfoldable pub range : ℕ → ℕ → List ℕ
range first zero = []
range first (suc n) = first ∷ range (first + 1) n

-- `NewPool`, with the largest capacity for which `make` gives a channel.
unfoldable pub new_pool : ℕ → ℤ → ℤ → Error ⊎ Pool
unfolding range
new_pool limit start size =
    if not (is_positive start)
    then inl bad_start
    else if not (is_positive size)
    then inl bad_size
    else if ltb limit (pos_part size)
    then inl chan_panics
    else if leb (2 ^ 63) (pos_part start + pos_part size)
    then inl range_wraps
    else inr (record {
      ch = range (pos_part start) (pos_part size);
      cap = pos_part size;
      first = pos_part start;
      last = pos_part start + pos_part size;
    })

abbrev receive : Pool → List ℕ → Pool × (Error ⊎ ℕ)
receive p [] = (p, inl exhausted)
receive p (uid ∷ rest) = (record p { ch = rest }, inr uid)

-- `Checkout`: a receive that does not block.
unfoldable pub checkout : Pool → Pool × (Error ⊎ ℕ)
checkout p = receive p p.ch

-- `Return`: a send that does not block; `none` is the nil error.
unfoldable pub return_uid : Pool → ℕ → Pool × Option Error
return_uid p uid =
    if ltb uid p.first || leb p.last uid
    then (p, some out_of_range)
    else if ltb (length p.ch) p.cap
    then (record p { ch = p.ch ++ uid ∷ [] }, none)
    else (p, some already_full)

unfoldable pub available : Pool → ℕ
available p = length p.ch

unfoldable pub capacity : Pool → ℕ
capacity p = p.cap
