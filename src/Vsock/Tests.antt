-- ===== src/Vsock/Tests.antt =====
-- The handshake with a peer that answers and one that refuses.
use herd.Common.{◌≡◌, refl, true, false, [], ◌∷◌, none, some}
use herd.Common.Text.{codes}
use herd.Common.Split.{has_byte, has_prefix, trim_left, trim_right}
use herd.Common.Numerals.{digits}
use herd.Vsock.Defs.{
  Conn, Peer, context_done, cancelled, handshake_text, through_newline, read_line, check_response,
  dial_firecracker, execute,
}
use herd.Vsock.Handshake.{IsClean, dial_firecracker-IsClean, sending, dial_firecracker-tail}

-- The answer in two pieces.
abbrev answering : Peer
answering = record {
  pieces = some (codes "OK 10" ∷ codes "24\nhello" ∷ codes "world" ∷ []);
  writable = true;
}

dial_ok : dial_firecracker answering 5000 ≡ (
  some (record {
    written = codes "CONNECT 5000\n";
    incoming = codes "world" ∷ [];
    is_open = true;
    has_deadline = false;
  }),
  none,
)
unfolding dial_firecracker read_line through_newline has_byte check_response has_prefix trim_left
    trim_right handshake_text digits
dial_ok = refl

dial_firecracker-IsClean_example : IsClean 5000 (dial_firecracker answering 5000)
dial_firecracker-IsClean_example = dial_firecracker-IsClean answering 5000

dial_firecracker-tail_example :
    dial_firecracker (sending (codes "OK 10" ∷ []) (codes "24\nhello") (codes "world" ∷ [])) 5000
    ≡ dial_firecracker (sending (codes "OK 10" ∷ []) (codes "24\n") (codes "world" ∷ [])) 5000
unfolding has_byte
dial_firecracker-tail_example =
    dial_firecracker-tail (codes "OK 10" ∷ []) (codes "world" ∷ []) (codes "24") (codes "hello")
      5000 (refl, tt) refl

abbrev idle : Conn
idle = record { written = []; incoming = []; is_open = true; has_deadline = false }

execute_cancelled :
    execute (λ p. some (codes "{}")) true cancelled (record { command = []; env = [] }) idle
    ≡ (record idle { written = codes "{}\n"; is_open = false }, some context_done)
unfolding execute
execute_cancelled = refl
