-- ===== src/Vsock/Defs.antt =====
-- internal/vsock/dialer.go. A connection is what was written to it and what is still to be read, in the
-- pieces that `Read` returns; the other side is a parameter. A deadline makes a read or write fail.
use herd.Common.{ℕ, Bool, true, false, List, [], ◌∷◌, ◌++◌, Option, none, some, if◌then◌else◌, ◌==◌}
use herd.Common.Text.{Text, codes}
use herd.Common.Split.{has_byte, has_prefix, trim_space}
use herd.Common.Numerals.{digits}

pub record Conn : Type 0 where
  pub written : Text
  pub incoming : List Text
  pub is_open : Bool
  pub has_deadline : Bool

-- What is met on the way: the answer to the dial, with the pieces that the other side sends, and
-- whether the writes succeed.
pub record Peer : Type 0 where
  pub pieces : Option (List Text)
  pub writable : Bool

pub data DialError : Type 0 where
  not_dialed not_sent no_response rejected : DialError

abbrev pub close : Conn → Conn
close c = record c { is_open = false }

-- "CONNECT <port>\n"; a port has 32 bits, so ten digits at most.
unfoldable pub handshake_text : ℕ → Text
handshake_text port = codes "CONNECT " ++ (digits 10 port [] ++ b'\n' ∷ [])

-- A text up to the first newline, which is included.
unfoldable pub through_newline : Text → Text
through_newline [] = []
through_newline (c ∷ t) = let rest = through_newline t in if c == b'\n' then c ∷ [] else c ∷ rest

-- `ReadString('\n')` of a new `bufio.Reader`: the line, and the pieces that the reader has not taken
-- from the connection. What follows the newline in its piece is in the reader alone.
unfoldable pub read_line : List Text → Text → Option (Text × List Text)
read_line [] line = none
read_line (piece ∷ pieces) line =
    let rest = read_line pieces (line ++ piece) in
    if has_byte b'\n' piece then some (line ++ through_newline piece, pieces) else rest

-- What `DialFirecracker` leaves: the connection, if one was made, and its result.
abbrev pub Dialed : Type 0
Dialed = Option Conn × Option DialError

unfoldable pub check_response : Conn → Option (Text × List Text) → Dialed
check_response c none = (some (close c), some no_response)
check_response c (some (line, pieces)) =
    if has_prefix (codes "OK") (trim_space line)
    then (some (record c { incoming = pieces; has_deadline = false }), none)
    else (some (close (record c { incoming = pieces })), some rejected)

unfoldable pub dial_firecracker : Peer → ℕ → Dialed
dial_firecracker peer port = elim (peer.pieces) [
  | none ↦ (none, some not_dialed)
  | some pieces ↦
      let c : Conn = record {
        written = [];
        incoming = pieces;
        is_open = true;
        has_deadline = true;
      } in
      if peer.writable
      then check_response (record c { written = handshake_text port }) (read_line pieces [])
      else (some (close c), some not_sent)
]

pub record ExecPayload : Type 0 where
  pub command : List Text
  pub env : List Text

-- How the copy of the output ends: the context is done first, or it comes to its end or fails.
pub data Ending : Type 0 where
  cancelled finished broken : Ending

pub data ExecError : Type 0 where
  not_encoded not_transmitted context_done stream_failed : ExecError

abbrev pub ending_error : Ending → Option ExecError
ending_error cancelled = some context_done
ending_error finished = none
ending_error broken = some stream_failed

-- `Execute`; `encoded` is the payload in JSON.
unfoldable pub execute :
    (ExecPayload → Option Text) → Bool → Ending → ExecPayload → Conn → Conn × Option ExecError
execute encode writable ending payload c = elim (encode payload) [
  | none ↦ (close c, some not_encoded)
  | some text ↦
      if writable
      then (close (record c { written = c.written ++ (text ++ b'\n' ∷ []) }), ending_error ending)
      else (close c, some not_transmitted)
]
