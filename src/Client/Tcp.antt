-- ===== src/Client/Tcp.antt =====
-- The attempts of client/agent_client.py over client/transport/tcp_client.py.
use rudp_agent_stack.Base.{
  ℕ, Bool, false, not, List, ◌∷◌, Result, ok, err, ltb, ◌==◌, if◌then◌else◌,
}
use rudp_agent_stack.Bytes.{Bytes}
use rudp_agent_stack.Constants.{header_size, max_payload_len}
use rudp_agent_stack.Exceptions.{Py, connection_error}
use rudp_agent_stack.Envelope.{AppHeader, decode_header}
use rudp_agent_stack.Envelope.Stream.{receive_exact}
use rudp_agent_stack.Agent.Values.{Python}
use rudp_agent_stack.Client.{Failure, retryable, Response, failure_of, decode_payload}

-- The socket of a connection: whether there is one, whether it refuses to send, what it still has to
-- hand over, and what was sent on it, the last first.
pub record TcpClient : Type 0 where
  pub connected : Bool
  pub broken : Bool
  pub arrived : List Bytes
  pub sent : List Bytes

abbrev pub close : TcpClient → TcpClient
close c = record c { connected = false }

abbrev pub receive : ℕ → TcpClient → TcpClient × Py Bytes
receive nbytes c =
    if c.connected
    then (let (r, rest) = receive_exact nbytes c.arrived in (record c { arrived = rest }, r))
    else (c, err connection_error)

abbrev pub send_bytes : Bytes → TcpClient → TcpClient × Py (Unit {0})
send_bytes data_ c =
    if not c.connected
    then (c, err connection_error)
    else if c.broken
    then (c, err connection_error)
    else (record c { sent = data_ ∷ c.sent }, ok tt)

module _ (py : Python) where
  abbrev pub with_payload : TcpClient × Py Bytes → TcpClient × Result Failure Response
  with_payload (c, ok payload) = (c, decode_payload py payload)
  with_payload (c, err e) = (c, err (failure_of e))

  abbrev pub with_header : ℕ → Py AppHeader → TcpClient → TcpClient × Result Failure Response
  with_header id (err e) c = (c, err (failure_of e))
  with_header id (ok header) c =
      if ltb max_payload_len header.payload_len
      then (c, err retryable)
      else if not (header.request_id == id)
      then (close c, err retryable)
      else with_payload (receive header.payload_len c)

  abbrev pub with_header_data : ℕ → TcpClient × Py Bytes → TcpClient × Result Failure Response
  with_header_data id (c, ok data_) = with_header id (decode_header data_) c
  with_header_data id (c, err e) = (c, err (failure_of e))

  abbrev pub when_sent : ℕ → TcpClient × Py (Unit {0}) → TcpClient × Result Failure Response
  when_sent id (c, ok u) = with_header_data id (receive header_size c)
  when_sent id (c, err e) = (c, err (failure_of e))

  unfoldable pub attempt : ℕ → Py Bytes → TcpClient → TcpClient × Result Failure Response
  attempt id (err e) c = (c, err (failure_of e))
  attempt id (ok full_message) c = when_sent id (send_bytes full_message c)
