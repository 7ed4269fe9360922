-- ===== src/Rudp/Connection.antt =====
-- client/transport/rudp_client.py and server/transport/rudp_server.py: how a datagram reaches the
-- sender and the receiver of a connection. The socket, its polling and the failure engine are outside
-- of the model: what the network does is the list of the datagrams that arrive.
pub mod Delivery
pub mod Complete
use rudp_agent_stack.Base.{
  ℕ, Bool, true, false, none, some, List, [], ◌∷◌, ok, err, if◌then◌else◌, ◌>>=◌,
}
use rudp_agent_stack.Exceptions.{Py}
use rudp_agent_stack.Bytes.{Bytes}
use rudp_agent_stack.Rudp.Packet.{RudpPacket, is_ack, has_data, pack, unpack}
use rudp_agent_stack.Rudp.Receiver.{Receiver, Ack, process_segment}
use rudp_agent_stack.Rudp.Float.{Float}
use rudp_agent_stack.Rudp.Sender.{Sender}
use rudp_agent_stack.Rudp.Sender.Acknowledge.{on_ack_received}

abbrev pub ack_packet : Ack → RudpPacket
ack_packet a = record {
  seq_num = 0;
  ack_num = a.ack_num;
  flags = a.flags;
  rwnd = a.rwnd;
  checksum = 0;
  msg_id = none;
  offset = none;
  payload = [];
}

-- ack_packet.pack(), handed to the socket
abbrev pub send_ack : Ack → Py (List Bytes)
send_ack a = do packed ← pack (ack_packet a); ok (packed.0 ∷ [])

module _ (f : Float) where
  open f use {F}

  pub record Connection : Type 0 where
    pub sender : Sender f
    pub receiver : Receiver

  unfoldable pub acknowledge : RudpPacket → F → Connection → Connection
  acknowledge p now c =
      if is_ack p then record c { sender = on_ack_received f p.ack_num p.rwnd now c.sender } else c

  -- `on_packet_received`: the connection afterwards, and the datagrams that it sends at once or the
  -- exception of `pack`. What was changed before an exception stays changed.
  unfoldable pub on_packet_received : RudpPacket → F → Connection → Connection × Py (List Bytes)
  unfolding acknowledge
  on_packet_received p now c =
      let c' = acknowledge p now c in
      if has_data p
      then (let (r, a) = process_segment p c'.receiver in (record c' { receiver = r }, send_ack a))
      else (c', ok [])

  -- One datagram of the receive loop: what does not unpack is dropped.
  unfoldable pub receive_datagram : Bytes → F → Connection → Connection × Py (List Bytes)
  unfolding on_packet_received
  receive_datagram bs now c = elim (unpack bs) [
    | ok p ↦ on_packet_received p now c
    | err e ↦ (c, ok [])
  ]

  -- The connection after the datagrams of the list have arrived.
  unfoldable pub receive_all : List (Bytes × F) → Connection → Connection
  unfolding receive_datagram
  receive_all [] c = c
  receive_all ((bs, now) ∷ rest) c = receive_all rest (receive_datagram bs now c).0
