-- ===== src/Rudp/Server.antt =====
-- server/transport/rudp_server.py: one connection for each peer, told apart by the peer's address. The
-- address is a parameter whose equality is decidable; the socket is outside of the model.
pub mod Isolation
pub mod Delivery
mod Tests
use rudp_agent_stack.Base.{
  ℕ, Bool, true, false, Option, none, some, List, [], ◌∷◌, ok, err, if◌then◌else◌, Eq,
}
use rudp_agent_stack.Base.Dict.{Dict, lookup, insert}
use rudp_agent_stack.Constants.{max_rwnd}
use rudp_agent_stack.Exceptions.{Py}
use rudp_agent_stack.Bytes.{Bytes}
use rudp_agent_stack.Rudp.Packet.{RudpPacket, unpack}
use rudp_agent_stack.Rudp.Receiver
use rudp_agent_stack.Rudp.Float.{Float}
use rudp_agent_stack.Rudp.Sender
use rudp_agent_stack.Rudp.Sender.{enqueue_data}
use rudp_agent_stack.Rudp.Sender.Acknowledge.{check_timeouts}
use rudp_agent_stack.Rudp.Connection.{Connection, on_packet_received}

module _ (f : Float) where
  open f use {F}

  -- `RUDPConnection`; the key of the dictionary is its address.
  pub record Peer : Type 0 where
    pub connection : Connection f
    pub last_seen : F

  abbrev pub new_peer : F → Peer
  new_peer now = record {
    connection = record { sender = Sender.init f max_rwnd; receiver = Receiver.init };
    last_seen = now;
  }

  -- The peer of an address that may be new.
  abbrev pub peer_of : Option Peer → F → Peer
  peer_of none now = new_peer now
  peer_of (some peer) now = peer

  -- The part of `_handle_datagram` behind the parsing.
  abbrev pub handle_packet : RudpPacket → F → Peer → Peer × Py (List Bytes)
  handle_packet p now peer =
      let (c, sent) = on_packet_received f p now peer.connection in
      (record { connection = c; last_seen = now }, sent)

  abbrev pub send_to : Bytes → ℕ → F → Peer → Peer
  send_to bytes request_id now peer = record peer {
    connection = record (peer.connection) {
      sender = enqueue_data f bytes request_id now peer.connection.sender;
    };
  }

  abbrev pub tick_peer : F → Peer → Peer
  tick_peer now peer = record peer {
    connection = record (peer.connection) { sender = check_timeouts f now peer.connection.sender };
  }

  module _ (A : Type 0) ⦃address : Eq A⦄ where
    pub record Server : Type 0 where
      pub connections : Dict A Peer

    abbrev pub no_connections : Server
    no_connections = record { connections = [] }

    -- The server afterwards, and the datagrams that it sends to `addr` at once.
    pub handle_datagram : Bytes → A → F → Server → Server × Py (List Bytes)
    handle_datagram bs addr now s = elim (unpack bs) [
      | err e ↦ (s, ok [])
      | ok p ↦
          let (peer, sent) = handle_packet p now (peer_of (lookup addr s.connections) now) in
          (record s { connections = insert addr peer s.connections }, sent)
    ]

    pub send : Bytes → ℕ → A → F → Server → Server
    send bytes request_id addr now s = record s {
      connections =
          insert addr (send_to bytes request_id now (peer_of (lookup addr s.connections) now))
            s.connections;
    }

    pub tick_all : F → Dict A Peer → Dict A Peer
    tick_all now [] = []
    tick_all now ((addr, peer) ∷ rest) = (addr, tick_peer now peer) ∷ tick_all now rest

    pub tick_connections : F → Server → Server
    unfolding tick_all
    tick_connections now s = record s { connections = tick_all now s.connections }

    -- What happens to the server, and what it does.
    pub data Input : Type 0 where
      datagram : Bytes → A → F → Input
      message : Bytes → ℕ → A → F → Input
      clock : F → Input

    pub serve : Input → Server → Server
    unfolding handle_datagram send tick_connections
    serve (datagram bs addr now) s = (handle_datagram bs addr now s).0
    serve (message bytes request_id addr now) s = send bytes request_id addr now s
    serve (clock now) s = tick_connections now s

    unfoldable pub serve_all : List Input → Server → Server
    unfolding serve
    serve_all [] s = s
    serve_all (i ∷ rest) s = serve_all rest (serve i s)
