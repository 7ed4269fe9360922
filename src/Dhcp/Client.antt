-- ===== src/Dhcp/Client.antt =====
-- client/dhcp_client.py: the client's side of the handshake. What `_receive_packet` returns in the rounds
-- of an attempt, none for a timeout or a malformed packet, is an argument; an attempt ends with its
-- list. The socket is left out.
use rudp_agent_stack.Base.{
  ℕ, zero, suc, ◌+◌, String, Bool, true, false, ◌&&◌, Option, none, some, List, [], ◌∷◌, ltb, ◌==◌,
  if◌then◌else◌, string_eq,
}
use rudp_agent_stack.Rudp.Float.{Float}
use rudp_agent_stack.Agent.Text.{is_empty}
use rudp_agent_stack.Dhcp.Packet.{DhcpPacket}

pub data ClientState : Type 0 where
  init selecting requesting bound : ClientState

-- A packet that was sent, and where to.
pub record Sent : Type 0 where
  pub packet : DhcpPacket
  pub dest_ip : String

abbrev pub max_retries_per_stage : ℕ
max_retries_per_stage = 5

abbrev pub fallback_threshold : ℕ
fallback_threshold = 2

-- The broadcast address, and after some attempts the server's own.
abbrev pub dest_for : ℕ → String
dest_for attempt = if ltb fallback_threshold attempt then "127.0.0.1" else "255.255.255.255"

abbrev pub rounds : List (List (Option DhcpPacket)) → List (Option DhcpPacket)
rounds [] = []
rounds (r ∷ rest) = r

abbrev pub later_rounds : List (List (Option DhcpPacket)) → List (List (Option DhcpPacket))
later_rounds [] = []
later_rounds (r ∷ rest) = rest

abbrev pub is_offer : ℕ → DhcpPacket → Bool
is_offer xid p = (p.xid == xid) && string_eq.beq p.message_type "OFFER"

abbrev pub discover_packet : ℕ → String → DhcpPacket
discover_packet xid mac = record {
  message_type = "DISCOVER";
  xid = xid;
  client_mac = mac;
  offered_ip = "";
  lease_time = 0;
}

-- What a packet means for the REQUEST stage.
pub data Reply : Type 0 where
  granted refused ignored : Reply

abbrev pub reply_of : ℕ → String → DhcpPacket → Reply
reply_of xid offered_ip p =
    if p.xid == xid
    then if string_eq.beq p.message_type "ACK"
      then if string_eq.beq p.offered_ip offered_ip then granted else ignored
      else if string_eq.beq p.message_type "NACK"
      then refused
      else ignored
    else ignored

abbrev pub request_packet : ℕ → String → String → DhcpPacket
request_packet xid ip mac = record {
  message_type = "REQUEST";
  xid = xid;
  client_mac = mac;
  offered_ip = ip;
  lease_time = 0;
}

module _ (f : Float) where
  open f use {F, of_nat, add}

  pub record DhcpClient : Type 0 where
    pub mac_address : String
    pub state : ClientState
    pub assigned_ip : Option String
    pub lease_time : ℕ
    pub lease_expiry : F
    -- What the client has sent so far, the last packet first.
    pub sent : List Sent

  abbrev pub transition : ClientState → DhcpClient → DhcpClient
  transition s c = record c { state = s }

  abbrev pub send_packet : DhcpPacket → String → DhcpClient → DhcpClient
  send_packet p dest c = record c { sent = record { packet = p; dest_ip = dest } ∷ c.sent }

  -- The rounds of one attempt of `_perform_selecting`.
  unfoldable pub wait_offer : ℕ → List (Option DhcpPacket) → DhcpClient → DhcpClient × Option String
  wait_offer xid [] c = (c, none)
  wait_offer xid (none ∷ rest) c = wait_offer xid rest c
  wait_offer xid (some p ∷ rest) c =
      let more = wait_offer xid rest c in
      if is_offer xid p
      then if is_empty p.offered_ip
        then more
        else (record c { lease_time = p.lease_time }, some p.offered_ip)
      else more

  abbrev pub or_retry :
      DhcpClient × Option String
      → (DhcpClient → DhcpClient × Option String)
      → DhcpClient × Option String
  or_retry (c, some ip) retry = (c, some ip)
  or_retry (c, none) retry = retry c

  -- The attempts from `attempt` on, with `left` of them to go.
  unfoldable pub select_attempts :
      ℕ → ℕ → ℕ → List (List (Option DhcpPacket)) → DhcpClient → DhcpClient × Option String
  select_attempts xid attempt zero arrivals c = (c, none)
  select_attempts xid attempt (suc left) arrivals c =
      or_retry
        (wait_offer xid (rounds arrivals)
          (send_packet (discover_packet xid c.mac_address) (dest_for attempt) c))
        (select_attempts xid (attempt + 1) left (later_rounds arrivals))

  unfoldable pub perform_selecting :
      ℕ → List (List (Option DhcpPacket)) → DhcpClient → DhcpClient × Option String
  perform_selecting xid arrivals c =
      select_attempts xid 1 max_retries_per_stage arrivals (transition selecting c)

  -- The client is bound by an ACK, with the clock when it came.
  abbrev pub bind : DhcpPacket → F → DhcpClient → DhcpClient
  bind p monotonic c = record c {
    assigned_ip = some p.offered_ip;
    lease_time = p.lease_time;
    lease_expiry = add monotonic (of_nat p.lease_time);
    state = bound;
  }

  abbrev pub act_on :
      Reply → DhcpPacket → F → DhcpClient → DhcpClient × Option Bool → DhcpClient × Option Bool
  act_on granted p monotonic c more = (bind p monotonic c, some true)
  act_on refused p monotonic c more = (c, some false)
  act_on ignored p monotonic c more = more

  -- The rounds of one attempt of `_perform_requesting`: bound, refused, or nothing yet.
  unfoldable pub wait_ack :
      ℕ → String → F → List (Option DhcpPacket) → DhcpClient → DhcpClient × Option Bool
  wait_ack xid ip monotonic [] c = (c, none)
  wait_ack xid ip monotonic (none ∷ rest) c = wait_ack xid ip monotonic rest c
  wait_ack xid ip monotonic (some p ∷ rest) c =
      let more = wait_ack xid ip monotonic rest c in act_on (reply_of xid ip p) p monotonic c more

  abbrev pub or_request_again :
      DhcpClient × Option Bool → (DhcpClient → DhcpClient × Bool) → DhcpClient × Bool
  or_request_again (c, some result) again = (c, result)
  or_request_again (c, none) again = again c

  unfoldable pub request_attempts :
      ℕ → String → F → ℕ → ℕ → List (List (Option DhcpPacket)) → DhcpClient → DhcpClient × Bool
  request_attempts xid ip monotonic attempt zero arrivals c = (c, false)
  request_attempts xid ip monotonic attempt (suc left) arrivals c =
      or_request_again
        (wait_ack xid ip monotonic (rounds arrivals)
          (send_packet (request_packet xid ip c.mac_address) (dest_for attempt) c))
        (request_attempts xid ip monotonic (attempt + 1) left (later_rounds arrivals))

  unfoldable pub perform_requesting :
      ℕ → String → F → List (List (Option DhcpPacket)) → DhcpClient → DhcpClient × Bool
  perform_requesting xid ip monotonic arrivals c =
      request_attempts xid ip monotonic 1 max_retries_per_stage arrivals (transition requesting c)

  abbrev pub request_offered :
      ℕ → F → List (List (Option DhcpPacket)) → DhcpClient × Option String → DhcpClient × Bool
  request_offered xid monotonic arrivals (c, none) = (c, false)
  request_offered xid monotonic arrivals (c, some ip) =
      perform_requesting xid ip monotonic arrivals c

  -- The handshake: what arrives after each DISCOVER and after each REQUEST, and the clock at the ACK.
  unfoldable pub acquire_lease :
      ℕ
      → F
      → List (List (Option DhcpPacket))
      → List (List (Option DhcpPacket))
      → DhcpClient
      → DhcpClient × Bool
  acquire_lease xid monotonic offers acks c =
      request_offered xid monotonic acks (perform_selecting xid offers (transition init c))
