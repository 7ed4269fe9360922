-- ===== src/Client/Rudp.antt =====
-- The attempts of client/agent_client.py over an asynchronous transport, which takes every message. The
-- messages that it delivers while an attempt waits are an argument.
use rudp_agent_stack.Base.{
  ℕ, Option, none, some, List, [], ◌∷◌, Result, ok, err, ltb, if◌then◌else◌, length, take, drop,
  nat_eq,
}
use rudp_agent_stack.Base.Dict.{Dict, lookup, contains, insert, remove}
use rudp_agent_stack.Bytes.{Bytes}
use rudp_agent_stack.Constants.{header_size, max_payload_len}
use rudp_agent_stack.Exceptions.{Py}
use rudp_agent_stack.Envelope.{AppHeader, decode_header}
use rudp_agent_stack.Agent.Values.{Python}
use rudp_agent_stack.Client.{Failure, retryable, Response, failure_of, decode_payload}

-- The response of each request that waits, and the messages of the attempts to come.
pub record AsyncClient : Type 0 where
  pub pending_requests : Dict ℕ (Option Bytes)
  pub deliveries : List (List Bytes)
  pub sent : List Bytes

abbrev pub Pending : Type 0
Pending = Dict ℕ (Option Bytes)

abbrev pub take_header : Bytes → Py AppHeader → Pending → Pending
take_header data_ (err e) p = p
take_header data_ (ok header) p =
    if contains header.request_id p then insert header.request_id (some data_) p else p

unfoldable pub on_message_received : Bytes → Pending → Pending
on_message_received data_ p =
    if ltb (length data_) header_size
    then p
    else take_header data_ (decode_header (take header_size data_)) p

unfoldable pub receive_all : List Bytes → Pending → Pending
receive_all [] p = p
receive_all (data_ ∷ rest) p = receive_all rest (on_message_received data_ p)

abbrev pub first_delivery : List (List Bytes) → List Bytes
first_delivery [] = []
first_delivery (d ∷ rest) = d

abbrev pub later_deliveries : List (List Bytes) → List (List Bytes)
later_deliveries [] = []
later_deliveries (d ∷ rest) = rest

module _ (py : Python) where
  abbrev pub payload_of : Bytes → Py AppHeader → Result Failure Response
  payload_of data_ (err e) = err (failure_of e)
  payload_of data_ (ok header) =
      if ltb max_payload_len header.payload_len
      then err retryable
      else decode_payload py (take header.payload_len (drop header_size data_))

  -- Without a response the wait has timed out.
  abbrev pub response_in : Option (Option Bytes) → Result Failure Response
  response_in (some (some data_)) = payload_of data_ (decode_header (take header_size data_))
  response_in _ = err retryable

  abbrev pub wait_response : ℕ → Pending → AsyncClient → AsyncClient × Result Failure Response
  wait_response id p c = (
    record c { pending_requests = remove id p; deliveries = later_deliveries c.deliveries },
    response_in (lookup id p),
  )

  unfoldable pub attempt : ℕ → Py Bytes → AsyncClient → AsyncClient × Result Failure Response
  attempt id (err e) c = (c, err (failure_of e))
  attempt id (ok full_message) c =
      wait_response id
        (receive_all (first_delivery c.deliveries) (insert id none c.pending_requests))
        (record c { sent = full_message ∷ c.sent })
