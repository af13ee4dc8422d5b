-- ===== src/Vsock/Handshake.antt =====
-- When `DialFirecracker` returns a connection, and in what state.
use herd.Common.{
  ℕ, ◌≡◌, refl, inl, inr, true, false, Bool-cases, List, [], ◌∷◌, ◌++◌, Option, none, some,
  Option-cases, arith, All,
}
use herd.Common.Text.{Text, codes}
use herd.Common.Split.{has_byte, has_prefix, trim_space}
use herd.Vsock.Defs.{
  Conn, Peer, not_dialed, handshake_text, through_newline, read_line, Dialed, check_response,
  dial_firecracker,
}

-- A result without an error has an open connection without a deadline, on which the handshake was
-- written; one with an error leaves no open connection.
abbrev pub IsClean : ℕ → Dialed → Type 0
IsClean port (some c, none) =
    (c.is_open ≡ true) × (c.has_deadline ≡ false) × (c.written ≡ handshake_text port)
IsClean port (none, none) = ⊥
IsClean port (some c, some e) = c.is_open ≡ false
IsClean port (none, some e) = e ≡ not_dialed

check_response-IsClean :
    (port : ℕ) (c : Conn) (r : Option (Text × List Text))
    → c.is_open ≡ true
    → c.written ≡ handshake_text port
    → IsClean port (check_response c r)
unfolding check_response
check_response-IsClean port c none o w = refl
check_response-IsClean port c (some (line, pieces)) o w =
    elim (Bool-cases (has_prefix (codes "OK") (trim_space line))) [
      | inl e ↦ rw e (o, refl, w)
      | inr e ↦ rw e refl
    ]

-- Whatever the other side does, `DialFirecracker` returns an open connection without a deadline, on
-- which the handshake was written, or an error and no open connection.
pub dial_firecracker-IsClean : (peer : Peer) (port : ℕ) → IsClean port (dial_firecracker peer port)
unfolding dial_firecracker
dial_firecracker-IsClean peer port = elim (Option-cases peer.pieces) [
  | inl e ↦ rw e refl
  | inr (pieces, e) ↦ elim (Bool-cases peer.writable) [
    | inl w ↦ rw (e, w) (check_response-IsClean port _ (read_line pieces []) refl refl)
    | inr w ↦ rw (e, w) refl
  ]
]

through_newline-append :
    (head tail : Text)
    → has_byte b'\n' head ≡ false
    → through_newline (head ++ b'\n' ∷ tail) ≡ head ++ b'\n' ∷ []
unfolding through_newline has_byte
through_newline-append [] tail h = refl
through_newline-append (c ∷ head) tail h = ground (arith, through_newline-append head tail)

has_byte-newline : (head tail : Text) → has_byte b'\n' (head ++ b'\n' ∷ tail) ≡ true
unfolding has_byte
has_byte-newline [] tail = refl
has_byte-newline (c ∷ head) tail = ground (arith, has_byte-newline head tail)

abbrev pub NoNewline : List Text → Type 0
NoNewline = All (λ (p : Text). has_byte b'\n' p ≡ false)

abbrev joined : List Text → Text → Text
joined [] line = line
joined (p ∷ before) line = joined before (line ++ p)

read_line-newline :
    (before after : List Text) (line head tail : Text)
    → NoNewline before
    → has_byte b'\n' head ≡ false
    → read_line (before ++ (head ++ b'\n' ∷ tail) ∷ after) line
      ≡ some (joined before line ++ (head ++ b'\n' ∷ []), after)
unfolding read_line
read_line-newline [] after line head tail n h =
    rw (has_byte-newline head tail, through_newline-append head tail h) refl
read_line-newline (p ∷ before) after line head tail (n, ns) h =
    rw n (read_line-newline before after (line ++ p) head tail ns h)

abbrev pub sending : List Text → Text → List Text → Peer
sending before piece after = record { pieces = some (before ++ piece ∷ after); writable = true }

-- What the other side sends behind the newline of its answer, in the same piece, is lost: the
-- result is the same as if it had not been sent, for all pieces before it that hold no newline and
-- all pieces after it.
pub dial_firecracker-tail :
    (before after : List Text) (head tail : Text) (port : ℕ)
    → NoNewline before
    → has_byte b'\n' head ≡ false
    → dial_firecracker (sending before (head ++ b'\n' ∷ tail) after) port
      ≡ dial_firecracker (sending before (head ++ b'\n' ∷ []) after) port
unfolding dial_firecracker check_response
dial_firecracker-tail before after head tail port n h =
    rw
      (
        read_line-newline before after [] head tail n h,
        read_line-newline before after [] head [] n h,
      )
      refl
