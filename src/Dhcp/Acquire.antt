-- ===== src/Dhcp/Acquire.antt =====
-- What the client knows when it is bound.
use rudp_agent_stack.Base.{
  ℕ, zero, suc, ◌+◌, ◌≡◌, refl, ap, String, Bool, true, Option, none, some, List, [], ◌∷◌, arith,
  inl, inr, nat_eq, string_eq, Member, ◌⊎◌,
}
use rudp_agent_stack.Rudp.Float.{Float}
use rudp_agent_stack.Dhcp.Packet.{DhcpPacket}
use rudp_agent_stack.Dhcp.Client.{
  bound, init, dest_for, rounds, later_rounds, DhcpClient, transition, send_packet,
  perform_selecting, max_retries_per_stage, Reply, granted, refused, ignored, reply_of, act_on,
  wait_ack, request_packet, or_request_again, request_attempts, perform_requesting, request_offered,
  acquire_lease,
}

-- A packet that arrived in some round of an attempt.
abbrev pub Heard : DhcpPacket → List (List (Option DhcpPacket)) → Type 0
Heard p [] = ⊥
Heard p (r ∷ rest) = Member (some p) r ⊎ Heard p rest

pub Heard-rounds :
    (p : DhcpPacket) (arrivals : List (List (Option DhcpPacket)))
    → Member (some p) (rounds arrivals)
    → Heard p arrivals
Heard-rounds p [] h = h
Heard-rounds p (r ∷ rest) h = inl h

pub Heard-later_rounds :
    (p : DhcpPacket) (arrivals : List (List (Option DhcpPacket)))
    → Heard p (later_rounds arrivals)
    → Heard p arrivals
Heard-later_rounds p [] h = h
Heard-later_rounds p (r ∷ rest) h = inr h

reply_of-granted :
    (xid : ℕ) (ip : String) (p : DhcpPacket)
    → reply_of xid ip p ≡ granted
    → (p.xid ≡ xid) × (p.message_type ≡ "ACK") × (p.offered_ip ≡ ip)
reply_of-granted xid ip p h =
    ground (arith, string_eq.beq_iff p.message_type "ACK", string_eq.beq_iff p.offered_ip ip)

module _ (f : Float) where
  open f use {F, of_nat, add}

  -- The client is bound by an ACK that it heard.
  pub record IsBound (xid : ℕ) (ip : String) (monotonic : F) (Heard : DhcpPacket → Type 0)
      (c : DhcpClient f) : Type 0 where
    pub packet : DhcpPacket
    pub heard : Heard packet
    pub same_xid : packet.xid ≡ xid
    pub is_ack : packet.message_type ≡ "ACK"
    pub same_ip : packet.offered_ip ≡ ip
    pub in_state : c.state ≡ bound
    pub assigned : c.assigned_ip ≡ some ip
    pub lease : c.lease_time ≡ packet.lease_time
    pub expiry : c.lease_expiry ≡ add monotonic (of_nat packet.lease_time)

  IsBound-imp :
      (xid : ℕ) (ip : String) (monotonic : F) (P Q : DhcpPacket → Type 0) (c : DhcpClient f)
      → ((p : DhcpPacket) → P p → Q p)
      → IsBound xid ip monotonic P c
      → IsBound xid ip monotonic Q c
  IsBound-imp xid ip monotonic P Q c imp b = record {
    packet = b.packet;
    heard = imp b.packet b.heard;
    same_xid = b.same_xid;
    is_ack = b.is_ack;
    same_ip = b.same_ip;
    in_state = b.in_state;
    assigned = b.assigned;
    lease = b.lease;
    expiry = b.expiry;
  }

  act_on-IsBound :
      (xid : ℕ) (ip : String) (monotonic : F) (r : Reply) (p : DhcpPacket)
      (heard : List (Option DhcpPacket)) (c : DhcpClient f) (more : DhcpClient f × Option Bool)
      → reply_of xid ip p ≡ r
      → (more.1 ≡ some true → IsBound xid ip monotonic (λ q. Member (some q) heard) more.0)
      → (act_on f r p monotonic c more).1 ≡ some true
      → IsBound xid ip monotonic
          (λ q. Member (some q) (some p ∷ heard))
          (act_on f r p monotonic c more).0
  act_on-IsBound xid ip monotonic granted p heard c more e rest h =
      let (same_xid, is_ack, same_ip) = reply_of-granted xid ip p e in
      record {
        packet = p;
        heard = inl refl;
        same_xid = same_xid;
        is_ack = is_ack;
        same_ip = same_ip;
        in_state = refl;
        assigned = ap some same_ip;
        lease = refl;
        expiry = refl;
      }
  act_on-IsBound xid ip monotonic refused p heard c more e rest h = absurd (ground arith)
  act_on-IsBound xid ip monotonic ignored p heard c more e rest h =
      IsBound-imp xid ip monotonic (λ q. Member (some q) heard)
        (λ q. Member (some q) (some p ∷ heard)) more.0 (λ q m. inr m) (rest h)

  wait_ack-IsBound :
      (xid : ℕ) (ip : String) (monotonic : F) (heard : List (Option DhcpPacket)) (c : DhcpClient f)
      → (wait_ack f xid ip monotonic heard c).1 ≡ some true
      → IsBound xid ip monotonic
          (λ q. Member (some q) heard)
          (wait_ack f xid ip monotonic heard c).0
  unfolding wait_ack
  wait_ack-IsBound xid ip monotonic [] c h = absurd (ground arith)
  wait_ack-IsBound xid ip monotonic (none ∷ rest) c h =
      IsBound-imp xid ip monotonic (λ q. Member (some q) rest) (λ q. Member (some q) (none ∷ rest))
        _ (λ q m. inr m) (wait_ack-IsBound xid ip monotonic rest c h)
  wait_ack-IsBound xid ip monotonic (some p ∷ rest) c h =
      act_on-IsBound xid ip monotonic (reply_of xid ip p) p rest c
        (wait_ack f xid ip monotonic rest c) refl (wait_ack-IsBound xid ip monotonic rest c) h

  or_request_again-IsBound :
      (xid : ℕ) (ip : String) (monotonic : F) (P Q : DhcpPacket → Type 0)
      (r : DhcpClient f × Option Bool) (again : DhcpClient f → DhcpClient f × Bool)
      → ((p : DhcpPacket) → P p → Q p)
      → (r.1 ≡ some true → IsBound xid ip monotonic P r.0)
      → ((c : DhcpClient f) → (again c).1 ≡ true → IsBound xid ip monotonic Q (again c).0)
      → (or_request_again f r again).1 ≡ true
      → IsBound xid ip monotonic Q (or_request_again f r again).0
  or_request_again-IsBound xid ip monotonic P Q (c, some b) again imp now next h =
      IsBound-imp xid ip monotonic P Q c imp (now (ap some h))
  or_request_again-IsBound xid ip monotonic P Q (c, none) again imp now next h = next c h

  request_attempts-IsBound :
      (xid : ℕ) (ip : String) (monotonic : F) (attempt left : ℕ)
      (arrivals : List (List (Option DhcpPacket))) (c : DhcpClient f)
      → (request_attempts f xid ip monotonic attempt left arrivals c).1 ≡ true
      → IsBound xid ip monotonic
          (λ q. Heard q arrivals)
          (request_attempts f xid ip monotonic attempt left arrivals c).0
  unfolding request_attempts
  request_attempts-IsBound xid ip monotonic attempt zero arrivals c h = absurd (ground arith)
  request_attempts-IsBound xid ip monotonic attempt (suc left) arrivals c h =
      let c' = send_packet f (request_packet xid ip c.mac_address) (dest_for attempt) c in
      or_request_again-IsBound xid ip monotonic (λ q. Member (some q) (rounds arrivals))
        (λ q. Heard q arrivals) (wait_ack f xid ip monotonic (rounds arrivals) c')
        (request_attempts f xid ip monotonic (attempt + 1) left (later_rounds arrivals))
        (λ q. Heard-rounds q arrivals) (wait_ack-IsBound xid ip monotonic (rounds arrivals) c')
        (λ c'' k.
          IsBound-imp xid ip monotonic (λ q. Heard q (later_rounds arrivals))
            (λ q. Heard q arrivals) _ (λ q. Heard-later_rounds q arrivals)
            (request_attempts-IsBound xid ip monotonic (attempt + 1) left (later_rounds arrivals)
              c'' k))
        h

  acquired :
      (xid : ℕ) (monotonic : F) (acks : List (List (Option DhcpPacket)))
      (r : DhcpClient f × Option String)
      → (request_offered f xid monotonic acks r).1 ≡ true
      → (ip : String) × (r.1 ≡ some ip)
        × IsBound xid ip monotonic (λ q. Heard q acks) (request_offered f xid monotonic acks r).0
  unfolding perform_requesting
  acquired xid monotonic acks (c, none) h = absurd (ground arith)
  acquired xid monotonic acks (c, some ip) h =
      (ip, refl, request_attempts-IsBound xid ip monotonic 1 max_retries_per_stage acks _ h)

  -- When the handshake succeeds, the client is bound by an ACK that it heard, to the address that came out
  -- of the first stage.
  pub acquire_lease-IsBound :
      (xid : ℕ) (monotonic : F) (offers acks : List (List (Option DhcpPacket))) (c : DhcpClient f)
      → (acquire_lease f xid monotonic offers acks c).1 ≡ true
      → (ip : String) × ((perform_selecting f xid offers (transition f init c)).1 ≡ some ip)
        × IsBound xid ip monotonic
            (λ q. Heard q acks)
            (acquire_lease f xid monotonic offers acks c).0
  unfolding acquire_lease
  acquire_lease-IsBound xid monotonic offers acks c h =
      acquired xid monotonic acks (perform_selecting f xid offers (transition f init c)) h
