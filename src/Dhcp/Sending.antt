-- ===== src/Dhcp/Sending.antt =====
-- What the client sends.
use rudp_agent_stack.Base.{
  ℕ, zero, suc, ◌+◌, ◌≡◌, refl, String, Bool, Option, none, some, List, [], ◌∷◌, inl, inr,
  Bool-cases, All,
}
use rudp_agent_stack.Rudp.Float.{Float}
use rudp_agent_stack.Agent.Text.{is_empty}
use rudp_agent_stack.Dhcp.Packet.{DhcpPacket}
use rudp_agent_stack.Dhcp.Client.{
  Sent, dest_for, rounds, later_rounds, DhcpClient, send_packet, is_offer, wait_offer,
  discover_packet, or_retry, select_attempts, perform_selecting, max_retries_per_stage, Reply,
  granted, refused, ignored, reply_of, act_on, wait_ack, request_packet, or_request_again,
  request_attempts, perform_requesting, request_offered, acquire_lease,
}

-- A packet of the client's own, for one transaction. It asks for no lease time.
pub record IsOwn (mac : String) (xid : ℕ) (p : DhcpPacket) : Type 0 where
  pub same_mac : p.client_mac ≡ mac
  pub same_xid : p.xid ≡ xid
  pub no_time : p.lease_time ≡ 0

module _ (f : Float) (mac : String) (xid : ℕ) where
  open f use {F}

  pub record SendsOwn (c : DhcpClient f) : Type 0 where
    pub same_mac : c.mac_address ≡ mac
    pub own : All (λ (s : Sent). IsOwn mac xid s.packet) c.sent

  send_packet-SendsOwn :
      (p : DhcpPacket) (dest : String) (c : DhcpClient f)
      → IsOwn mac xid p
      → SendsOwn c
      → SendsOwn (send_packet f p dest c)
  send_packet-SendsOwn p dest c h k = record { same_mac = k.same_mac; own = (h, k.own) }

  wait_offer-SendsOwn :
      (heard : List (Option DhcpPacket)) (c : DhcpClient f)
      → SendsOwn c
      → SendsOwn (wait_offer f xid heard c).0
  unfolding wait_offer
  wait_offer-SendsOwn [] c h = h
  wait_offer-SendsOwn (none ∷ rest) c h = wait_offer-SendsOwn rest c h
  wait_offer-SendsOwn (some p ∷ rest) c h =
      let more = wait_offer-SendsOwn rest c h in
      elim (Bool-cases (is_offer xid p)) [
        | inl offer ↦ elim (Bool-cases (is_empty p.offered_ip)) [
          | inl e ↦ rw (offer, e) more
          | inr e ↦ rw (offer, e) (record { same_mac = h.same_mac; own = h.own })
        ]
        | inr apart ↦ rw apart more
      ]

  or_retry-SendsOwn :
      (r : DhcpClient f × Option String) (retry : DhcpClient f → DhcpClient f × Option String)
      → SendsOwn r.0
      → ((c : DhcpClient f) → SendsOwn c → SendsOwn (retry c).0)
      → SendsOwn (or_retry f r retry).0
  or_retry-SendsOwn (c, some ip) retry h k = h
  or_retry-SendsOwn (c, none) retry h k = k c h

  select_attempts-SendsOwn :
      (attempt left : ℕ) (arrivals : List (List (Option DhcpPacket))) (c : DhcpClient f)
      → SendsOwn c
      → SendsOwn (select_attempts f xid attempt left arrivals c).0
  unfolding select_attempts
  select_attempts-SendsOwn attempt zero arrivals c h = h
  select_attempts-SendsOwn attempt (suc left) arrivals c h =
      let c' = send_packet f (discover_packet xid c.mac_address) (dest_for attempt) c in
      or_retry-SendsOwn (wait_offer f xid (rounds arrivals) c')
        (select_attempts f xid (attempt + 1) left (later_rounds arrivals))
        (wait_offer-SendsOwn (rounds arrivals) c' (
          send_packet-SendsOwn (discover_packet xid c.mac_address) (dest_for attempt) c
            (record { same_mac = h.same_mac; same_xid = refl; no_time = refl }) h))
        (select_attempts-SendsOwn (attempt + 1) left (later_rounds arrivals))

  act_on-SendsOwn :
      (r : Reply) (p : DhcpPacket) (monotonic : F) (c : DhcpClient f)
      (more : DhcpClient f × Option Bool)
      → SendsOwn c
      → SendsOwn more.0
      → SendsOwn (act_on f r p monotonic c more).0
  act_on-SendsOwn granted p monotonic c more h k = record { same_mac = h.same_mac; own = h.own }
  act_on-SendsOwn refused p monotonic c more h k = h
  act_on-SendsOwn ignored p monotonic c more h k = k

  wait_ack-SendsOwn :
      (ip : String) (monotonic : F) (heard : List (Option DhcpPacket)) (c : DhcpClient f)
      → SendsOwn c
      → SendsOwn (wait_ack f xid ip monotonic heard c).0
  unfolding wait_ack
  wait_ack-SendsOwn ip monotonic [] c h = h
  wait_ack-SendsOwn ip monotonic (none ∷ rest) c h = wait_ack-SendsOwn ip monotonic rest c h
  wait_ack-SendsOwn ip monotonic (some p ∷ rest) c h =
      act_on-SendsOwn (reply_of xid ip p) p monotonic c (wait_ack f xid ip monotonic rest c) h
        (wait_ack-SendsOwn ip monotonic rest c h)

  or_request_again-SendsOwn :
      (r : DhcpClient f × Option Bool) (again : DhcpClient f → DhcpClient f × Bool)
      → SendsOwn r.0
      → ((c : DhcpClient f) → SendsOwn c → SendsOwn (again c).0)
      → SendsOwn (or_request_again f r again).0
  or_request_again-SendsOwn (c, some b) again h k = h
  or_request_again-SendsOwn (c, none) again h k = k c h

  request_attempts-SendsOwn :
      (ip : String) (monotonic : F) (attempt left : ℕ) (arrivals : List (List (Option DhcpPacket)))
      (c : DhcpClient f)
      → SendsOwn c
      → SendsOwn (request_attempts f xid ip monotonic attempt left arrivals c).0
  unfolding request_attempts
  request_attempts-SendsOwn ip monotonic attempt zero arrivals c h = h
  request_attempts-SendsOwn ip monotonic attempt (suc left) arrivals c h =
      let c' = send_packet f (request_packet xid ip c.mac_address) (dest_for attempt) c in
      or_request_again-SendsOwn (wait_ack f xid ip monotonic (rounds arrivals) c')
        (request_attempts f xid ip monotonic (attempt + 1) left (later_rounds arrivals))
        (wait_ack-SendsOwn ip monotonic (rounds arrivals) c' (
          send_packet-SendsOwn (request_packet xid ip c.mac_address) (dest_for attempt) c
            (record { same_mac = h.same_mac; same_xid = refl; no_time = refl }) h))
        (request_attempts-SendsOwn ip monotonic (attempt + 1) left (later_rounds arrivals))

  request_offered-SendsOwn :
      (monotonic : F) (acks : List (List (Option DhcpPacket))) (r : DhcpClient f × Option String)
      → SendsOwn r.0
      → SendsOwn (request_offered f xid monotonic acks r).0
  unfolding perform_requesting
  request_offered-SendsOwn monotonic acks (c, none) h = h
  request_offered-SendsOwn monotonic acks (c, some ip) h =
      request_attempts-SendsOwn ip monotonic 1 max_retries_per_stage acks _
        (record { same_mac = h.same_mac; own = h.own })

  -- All that a client sends is its own.
  pub acquire_lease-SendsOwn :
      (monotonic : F) (offers acks : List (List (Option DhcpPacket))) (c : DhcpClient f)
      → SendsOwn c
      → SendsOwn (acquire_lease f xid monotonic offers acks c).0
  unfolding acquire_lease perform_selecting
  acquire_lease-SendsOwn monotonic offers acks c h = request_offered-SendsOwn monotonic acks _ (
      select_attempts-SendsOwn 1 max_retries_per_stage offers _
        (record { same_mac = h.same_mac; own = h.own }))
