-- ===== src/Dhcp/Server.antt =====
-- server/dhcp_server.py: the server around the pool of addresses. What it sends goes to the client port
-- of the loopback.
use rudp_agent_stack.Base.{
  ℕ, String, Bool, true, false, Option, none, some, List, [], ◌∷◌, ◌++◌, ok, err, if◌then◌else◌,
  string_eq,
}
use rudp_agent_stack.Bytes.{Bytes}
use rudp_agent_stack.Exceptions.{Py}
use rudp_agent_stack.Rudp.Float.{Float}
use rudp_agent_stack.Agent.Text.{is_empty}
use rudp_agent_stack.Agent.Values.{Python}
use rudp_agent_stack.Dhcp.{IpManager, handle_discover, handle_request}
use rudp_agent_stack.Dhcp.Packet.{DhcpPacket, from_bytes}

abbrev pub offer_packet : DhcpPacket → String → ℕ → DhcpPacket
offer_packet p ip t = record p { message_type = "OFFER"; offered_ip = ip; lease_time = t }

abbrev pub ack_packet : DhcpPacket → DhcpPacket
ack_packet p = record p { message_type = "ACK" }

abbrev pub nack_packet : DhcpPacket → DhcpPacket
nack_packet p = record p { message_type = "NACK"; offered_ip = ""; lease_time = 0 }

-- The messages that the server tells apart.
pub data Kind : Type 0 where
  discover request other : Kind

abbrev pub kind_of : String → Kind
kind_of t =
    if string_eq.beq t "DISCOVER"
    then discover
    else if string_eq.beq t "REQUEST"
    then request
    else other

module _ (f : Float) where
  open f use {F}

  -- An exhausted pool is not answered, and neither is a pool with bad bounds, for which
  -- `handle_discover` raises: the loop of the server goes on.
  abbrev pub offered :
      DhcpPacket → IpManager f × Py (Option String × ℕ) → IpManager f × List DhcpPacket
  offered p (m, ok (some ip, t)) = (m, if is_empty ip then [] else offer_packet p ip t ∷ [])
  offered p (m, ok (none, t)) = (m, [])
  offered p (m, err e) = (m, [])

  abbrev pub granted : DhcpPacket → IpManager f × Bool → IpManager f × List DhcpPacket
  granted p (m, true) = (m, ack_packet p ∷ [])
  granted p (m, false) = (m, nack_packet p ∷ [])

  -- `_handle_discover` and `_handle_request`, with the clock when the expired leases are removed and
  -- when a lease is renewed.
  unfoldable pub answer_discover : DhcpPacket → F → F → IpManager f → IpManager f × List DhcpPacket
  answer_discover p now later m = offered p (handle_discover f p.client_mac p.xid now later m)

  unfoldable pub answer_request : DhcpPacket → F → F → IpManager f → IpManager f × List DhcpPacket
  answer_request p now later m =
      granted p (handle_request f p.client_mac p.xid p.offered_ip now later m)

  abbrev pub route_packet : Kind → DhcpPacket → F → F → IpManager f → IpManager f × List DhcpPacket
  route_packet discover p now later m = answer_discover p now later m
  route_packet request p now later m = answer_request p now later m
  route_packet other p now later m = (m, [])

  abbrev pub handle_parsed : Option DhcpPacket → F → F → IpManager f → IpManager f × List DhcpPacket
  handle_parsed none now later m = (m, [])
  handle_parsed (some p) now later m = route_packet (kind_of p.message_type) p now later m

  unfoldable pub handle_packet :
      Python → Bytes → F → F → IpManager f → IpManager f × List DhcpPacket
  unfolding answer_discover answer_request
  handle_packet py data_ now later m = handle_parsed (from_bytes py data_) now later m

  -- A datagram that arrives, with the clock.
  pub record Arrival : Type 0 where
    pub data_ : Bytes
    pub now : F
    pub later : F

  -- `serve_forever` for as many datagrams as arrive: the pool, and all that was sent.
  unfoldable pub serve_forever : Python → List Arrival → IpManager f → IpManager f × List DhcpPacket
  serve_forever py [] m = (m, [])
  serve_forever py (a ∷ rest) m =
      let (m', sent) = handle_packet py a.data_ a.now a.later m in
      let (m'', more) = serve_forever py rest m' in (m'', sent ++ more)
