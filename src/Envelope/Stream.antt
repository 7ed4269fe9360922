-- ===== src/Envelope/Stream.antt =====
-- server/transport/tcp_server.py and client/transport/tcp_client.py: messages on a byte stream. What a
-- socket still has to hand over are the chunks that arrived; an empty result of `recv` is the end.
use rudp_agent_stack.Base.{
  ℕ, zero, suc, ◌-◌, List, [], ◌∷◌, ◌++◌, ok, err, ltb, ◌==◌, if◌then◌else◌, length, take, drop,
}
use rudp_agent_stack.Constants.{header_size}
use rudp_agent_stack.Exceptions.{Py, connection_error}
use rudp_agent_stack.Bytes.{Bytes}
use rudp_agent_stack.Envelope.{AppHeader, decode_header}

abbrev pub put_back : Bytes → List Bytes → List Bytes
put_back [] arrived = arrived
put_back (b ∷ bs) arrived = (b ∷ bs) ∷ arrived

-- conn.recv(n): at most n bytes, and no more than one chunk
abbrev pub recv : ℕ → List Bytes → Bytes × List Bytes
recv n [] = ([], [])
recv n (chunk ∷ arrived) = (take n chunk, put_back (drop n chunk) arrived)

-- The loop of `receive_exact`; each round gets a byte at least, so that `nbytes` rounds are enough.
unfoldable pub receive_loop : ℕ → ℕ → Bytes → List Bytes → Py Bytes × List Bytes
receive_loop zero nbytes buf arrived = (ok buf, arrived)
receive_loop (suc fuel) nbytes buf arrived =
    let (chunk, rest) = recv (nbytes - length buf) arrived in
    let more = receive_loop fuel nbytes (buf ++ chunk) rest in
    if ltb (length buf) nbytes
    then (if length chunk == 0 then (err connection_error, rest) else more)
    else (ok buf, arrived)

unfoldable pub receive_exact : ℕ → List Bytes → Py Bytes × List Bytes
unfolding receive_loop
receive_exact nbytes arrived = receive_loop nbytes nbytes [] arrived

abbrev pub with_header : Bytes → Py Bytes × List Bytes → Py (Bytes × Bytes) × List Bytes
with_header header (ok payload, rest) = (ok (header, payload), rest)
with_header header (err e, rest) = (err e, rest)

abbrev pub read_payload : Bytes → Py AppHeader → List Bytes → Py (Bytes × Bytes) × List Bytes
read_payload header (err e) arrived = (err e, arrived)
read_payload header (ok h) arrived = with_header header (receive_exact h.payload_len arrived)

abbrev pub read_header : Py Bytes × List Bytes → Py (Bytes × Bytes) × List Bytes
read_header (ok header, arrived) = read_payload header (decode_header header) arrived
read_header (err e, arrived) = (err e, arrived)

-- The steps 1 to 3 of `_handle_connection` of server/agent_server.py: the header and the payload of the
-- next message.
unfoldable pub receive_message : List Bytes → Py (Bytes × Bytes) × List Bytes
receive_message arrived = read_header (receive_exact header_size arrived)
