-- ===== src/Dhcp/AcquireTests.antt =====
-- One client and the server, with a JSON in which a byte stands for a whole packet.
use rudp_agent_stack.Base.{
  ◌≡◌, refl, sym, ap, subst, true, Option, none, some, List, [], ◌∷◌, ◌==◌, if◌then◌else◌, inl, inr,
  arith, Member, string_eq, nat_eq,
}
use rudp_agent_stack.Base.Dict.{lookup, insert, remove}
use rudp_agent_stack.Samples.{milli}
use rudp_agent_stack.Bytes.{Bytes}
use rudp_agent_stack.Agent.Values.{Loaded, loaded, not_json, Python, get, has}
use rudp_agent_stack.Agent.Toy.{toy}
use rudp_agent_stack.Dhcp.{IpManager, init, handle_discover, handle_request, cleanup_expired_leases}
use rudp_agent_stack.Dhcp.Packet.{DhcpPacket, as_dict, from_fields, from_bytes}
use rudp_agent_stack.Dhcp.Server.{
  offer_packet, ack_packet, answer_discover, answer_request, handle_packet, Arrival, serve_forever,
}
use rudp_agent_stack.Dhcp.Client.{
  DhcpClient, discover_packet, request_packet, wait_offer, select_attempts, perform_selecting,
  wait_ack, request_attempts, perform_requesting, acquire_lease,
}
use rudp_agent_stack.Dhcp.Client
use rudp_agent_stack.Dhcp.Granted.{IsGranted, serve_forever-IsGranted}
use rudp_agent_stack.Dhcp.Agreement.{packets_of, IsAgreed, acquire_lease-IsAgreed}
use rudp_agent_stack.Dhcp.Acquire.{Heard}

program : Unit {0}
unfolding serve_forever handle_packet answer_discover answer_request from_bytes from_fields get has
    lookup insert remove handle_discover handle_request cleanup_expired_leases acquire_lease
    perform_selecting select_attempts wait_offer perform_requesting request_attempts wait_ack
program = tt

abbrev discover : DhcpPacket
discover = discover_packet 7 "aa"

abbrev request : DhcpPacket
request = request_packet 7 "127.0.0.2" "aa"

abbrev offer : DhcpPacket
offer = offer_packet discover "127.0.0.2" 3600

abbrev packets_json : Bytes → Loaded
packets_json [] = not_json "Expecting value"
packets_json (b ∷ rest) =
    if b == 1
    then loaded (as_dict discover)
    else if b == 2
    then loaded (as_dict request)
    else not_json "Expecting value"

abbrev py : Python
py = record toy { loads = packets_json }

abbrev pool : IpManager milli
pool = init milli "127.0.0.2" "127.0.0.9"

-- The second datagram is of no packet.
abbrev arrivals : List (Arrival milli)
arrivals =
    record { data_ = 1 ∷ []; now = 0; later = 0 }
    ∷ record { data_ = 9 ∷ []; now = 1; later = 1 }
    ∷ record { data_ = 2 ∷ []; now = 2; later = 3 }
    ∷ []

abbrev client : DhcpClient milli
client = record {
  mac_address = "aa";
  state = Client.init;
  assigned_ip = none;
  lease_time = 0;
  lease_expiry = 0;
  sent = [];
}

answers : (serve_forever milli py arrivals pool).1 ≡ offer ∷ ack_packet request ∷ []
unfolding program
answers = refl

-- The OFFER is lost at first, and an OFFER of another transaction comes before it.
abbrev offers : List (List (Option DhcpPacket))
offers = (none ∷ []) ∷ (some (record offer { xid = 8 }) ∷ some offer ∷ []) ∷ []

abbrev acks : List (List (Option DhcpPacket))
acks = (none ∷ some (ack_packet request) ∷ []) ∷ []

unwrap : DhcpPacket → Option DhcpPacket → DhcpPacket
unwrap d none = d
unwrap d (some p) = p

some_eq : (p q : DhcpPacket) → some p ≡ some q → p ≡ q
unfolding unwrap
some_eq p q e = ap (unwrap p) e

honest : (p : DhcpPacket) → Heard p acks → Member p (serve_forever milli py arrivals pool).1
unfolding program
honest p (inl (inl e)) = ground arith
honest p (inl (inr (inl e))) = inr (inl (some_eq (ack_packet request) p e))
honest p (inl (inr (inr m))) = absurd m
honest p (inr m) = absurd m

unique :
    (a : Arrival milli) (p : DhcpPacket)
    → Member a arrivals
    → from_bytes py a.data_ ≡ some p
    → p.xid ≡ 7
    → Member p (packets_of milli (acquire_lease milli 7 100 offers acks client).0)
unfolding program
unique a p (inl e) h same = inr (
    inl (
      some_eq discover p (subst (λ (a : Arrival milli). from_bytes py a.data_ ≡ some p) (sym e) h)))
unique a p (inr (inl e)) h same =
    let unread : none ≡ some p =
      subst (λ (a : Arrival milli). from_bytes py a.data_ ≡ some p) (sym e) h in
    absurd (ground arith)
unique a p (inr (inr (inl e))) h same =
    inl
      (some_eq request p (subst (λ (a : Arrival milli). from_bytes py a.data_ ≡ some p) (sym e) h))
unique a p (inr (inr (inr m))) h same = absurd m

done : (acquire_lease milli 7 100 offers acks client).1 ≡ true
unfolding program
done = refl

serve_forever-IsGranted_example : IsGranted milli py arrivals pool (ack_packet request)
serve_forever-IsGranted_example =
    serve_forever-IsGranted milli py arrivals pool (ack_packet request) refl
      (honest (ack_packet request) (inl (inr (inl refl))))

acquire_lease-IsAgreed_example :
    IsAgreed milli py arrivals pool "aa" 7 (acquire_lease milli 7 100 offers acks client).0
acquire_lease-IsAgreed_example =
    acquire_lease-IsAgreed milli py arrivals pool 7 100 offers acks client refl done honest unique
