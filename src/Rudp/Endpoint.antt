-- ===== src/Rudp/Endpoint.antt =====
-- client/transport/rudp_client.py: one end of a conversation with all that it has sent, and two ends over
-- a network that loses, repeats, delays, reorders and garbles. A connection of
-- server/transport/rudp_server.py takes the same steps.
pub mod Acknowledging
pub mod Invariant
pub mod Hearing
pub mod Moves
pub mod Safety
mod Tests
use rudp_agent_stack.Base.{ℕ, ◌≡◌, ◌⊎◌, Option, none, some, List, [], ◌∷◌, ◌++◌, ok, err, Member}
use rudp_agent_stack.Exceptions.{Py}
use rudp_agent_stack.Bytes.{Bytes}
use rudp_agent_stack.Constants.{max_rwnd}
use rudp_agent_stack.Rudp.Packet.{RudpPacket, unpack}
use rudp_agent_stack.Rudp.Receiver
use rudp_agent_stack.Rudp.Float.{Float}
use rudp_agent_stack.Rudp.Sender
use rudp_agent_stack.Rudp.Sender.{enqueue_data}
use rudp_agent_stack.Rudp.Sender.Acknowledge.{check_timeouts}
use rudp_agent_stack.Rudp.Connection.{Connection, receive_datagram}

-- Bytes that `unpack` refuses.
abbrev pub IsGarbled : Bytes → Type 0
IsGarbled bs = (p : RudpPacket) → unpack bs ≡ ok p → ⊥

-- Nothing more is sent where `pack` raised.
abbrev pub sent_now : Py (List Bytes) → List Bytes
sent_now (ok packets) = packets
sent_now (err e) = []

module _ (f : Float) where
  open f use {F}

  -- `replies` holds the acknowledgments that were sent, and `queued` what the application sent.
  pub record Endpoint : Type 0 where
    pub connection : Connection f
    pub replies : List Bytes
    pub queued : List Bytes

  abbrev pub fresh : Endpoint
  fresh = record {
    connection = record { sender = Sender.init f max_rwnd; receiver = Receiver.init };
    replies = [];
    queued = [];
  }

  unfoldable pub send : Bytes → ℕ → F → Endpoint → Endpoint
  send data_ request_id now e = record e {
    connection = record (e.connection) {
      sender = enqueue_data f data_ request_id now e.connection.sender;
    };
    queued = e.queued ++ data_ ∷ [];
  }

  unfoldable pub hear : Bytes → F → Endpoint → Endpoint
  hear data_ now e =
      let (c, sent) = receive_datagram f data_ now e.connection in
      record e { connection = c; replies = e.replies ++ sent_now sent }

  unfoldable pub tick : F → Endpoint → Endpoint
  tick now e = record e {
    connection = record (e.connection) { sender = check_timeouts f now e.connection.sender };
  }

  -- The tick at the end of a round; an exception of `pack`, which the loop does not catch, ends the loop
  -- before it.
  abbrev pub tick_after : Py (List Bytes) → F → Endpoint → Endpoint
  tick_after (ok packets) later e = tick later e
  tick_after (err e') later e = e

  -- One round of `_receive_loop`: what `recv` gave, if anything, and the tick.
  unfoldable pub loop_round : Option Bytes → F → F → Endpoint → Endpoint
  loop_round (some (b ∷ data_)) now later e =
      tick_after (receive_datagram f (b ∷ data_) now e.connection).1 later (hear (b ∷ data_) now e)
  loop_round _ now later e = tick later e

  -- All that the endpoint has handed to its socket.
  abbrev pub network : Endpoint → List Bytes
  network e = e.connection.sender.wire ++ e.replies

  abbrev pub MayArrive : Bytes → Endpoint → Type 0
  MayArrive data_ from = Member data_ (network from) ⊎ IsGarbled data_

  -- What a round of the receive loop may get.
  abbrev pub Received : Option Bytes → Endpoint → Type 0
  Received none from = Unit
  Received (some data_) from = MayArrive data_ from

  pub record Pair : Type 0 where
    pub near : Endpoint
    pub far : Endpoint

  abbrev pub swap : Pair → Pair
  swap s = record { near = s.far; far = s.near }

  -- What one end does; `other` is a step of the far end.
  pub data Step : Pair → Pair → Type 0 where
    sends :
        (s : Pair) (data_ : Bytes) (request_id : ℕ) (now : F)
        → Step s (record s { near = send data_ request_id now s.near })
    ticks : (s : Pair) (now : F) → Step s (record s { near = tick now s.near })
    hears :
        (s : Pair) (data_ : Bytes) (now : F)
        → MayArrive data_ s.far
        → Step s (record s { near = hear data_ now s.near })
    rounds :
        (s : Pair) (data_ : Option Bytes) (now later : F)
        → Received data_ s.far
        → Step s (record s { near = loop_round data_ now later s.near })
    other : {s t : Pair} → Step (swap s) t → Step s (swap t)

  pub data Reach : Pair → Type 0 where
    start : Reach (record { near = fresh; far = fresh })
    next : {s t : Pair} → Reach s → Step s t → Reach t
