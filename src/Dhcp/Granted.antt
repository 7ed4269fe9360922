-- ===== src/Dhcp/Granted.antt =====
-- What stands behind an ACK that the server sent.
use rudp_agent_stack.Base.{
  ℕ, ◌≡◌, refl, sym, ap, ◌∙◌, String, Bool, true, false, Option, none, some, List, [], ◌∷◌, ◌++◌,
  ok, err, arith, inl, inr, Bool-cases, string_eq, subst, Member, Member-++,
}
use rudp_agent_stack.Exceptions.{Py}
use rudp_agent_stack.Rudp.Float.{Float}
use rudp_agent_stack.Agent.Text.{is_empty}
use rudp_agent_stack.Agent.Values.{Python}
use rudp_agent_stack.Dhcp.{IpManager, handle_discover, handle_request}
use rudp_agent_stack.Dhcp.Handshake.{Holds, handle_request-Holds}
use rudp_agent_stack.Dhcp.Packet.{DhcpPacket, from_bytes}
use rudp_agent_stack.Dhcp.Server.{
  ack_packet, offered, granted, answer_discover, answer_request, Kind, discover, request, other,
  kind_of, route_packet, handle_parsed, handle_packet, Arrival, serve_forever,
}

not_same : (s t : String) → string_eq.beq s t ≡ false → s ≡ t → ⊥
not_same s t apart e = absurd (ground (arith, string_eq.beq_iff s t))

kind_of-request : (t : String) → kind_of t ≡ request → t ≡ "REQUEST"
kind_of-request t h = elim (Bool-cases (string_eq.beq t "DISCOVER")) [
  | inl hit ↦ absurd (ground (arith, rw hit at h))
  | inr fresh ↦ elim (Bool-cases (string_eq.beq t "REQUEST")) [
    | inl hit ↦ (string_eq.beq_iff t "REQUEST").0 hit
    | inr miss ↦ absurd (ground (arith, rw (fresh, miss) at h))
  ]
]

module _ (f : Float) where
  open f use {F}

  offered-ack :
      (p : DhcpPacket) (r : IpManager f × Py (Option String × ℕ)) (q : DhcpPacket)
      → q.message_type ≡ "ACK"
      → Member q (offered f p r).1
      → ⊥
  offered-ack p (m, ok (some ip, t)) q h here = elim (Bool-cases (is_empty ip)) [
    | inl none_left ↦ absurd (rw none_left at here)
    | inr free ↦ elim (rw free at here) [
      | inl e ↦ not_same "OFFER" "ACK" refl (ap (λ (r : DhcpPacket). r.message_type) e ∙ h)
      | inr m ↦ m
    ]
  ]
  offered-ack p (m, ok (none, t)) q h here = here
  offered-ack p (m, err e) q h here = here

  -- An ACK answers a REQUEST, which it repeats, and the client holds what it asked for.
  record Answers (asked : DhcpPacket) (later : F) (m : IpManager f) (q : DhcpPacket) : Type 0 where
    pub is_request : asked.message_type ≡ "REQUEST"
    pub answered : q ≡ ack_packet asked
    pub holds : Holds f asked.client_mac asked.xid asked.offered_ip later m

  granted-ack :
      (p : DhcpPacket) (r : IpManager f × Bool) (q : DhcpPacket)
      → q.message_type ≡ "ACK"
      → Member q (granted f p r).1
      → (r.1 ≡ true) × (q ≡ ack_packet p)
  granted-ack p (m, true) q h (inl e) = (refl, sym e)
  granted-ack p (m, true) q h (inr here) = absurd here
  granted-ack p (m, false) q h (inl e) =
      absurd (not_same "NACK" "ACK" refl (ap (λ (r : DhcpPacket). r.message_type) e ∙ h))
  granted-ack p (m, false) q h (inr here) = absurd here

  granted_pool : (p : DhcpPacket) (r : IpManager f × Bool) → (granted f p r).0 ≡ r.0
  granted_pool p (m, true) = refl
  granted_pool p (m, false) = refl

  answer_request-ack :
      (p : DhcpPacket) (now later : F) (m : IpManager f) (q : DhcpPacket)
      → p.message_type ≡ "REQUEST"
      → q.message_type ≡ "ACK"
      → Member q (answer_request f p now later m).1
      → Answers p later (answer_request f p now later m).0 q
  unfolding answer_request
  answer_request-ack p now later m q asked h here =
      let r = handle_request f p.client_mac p.xid p.offered_ip now later m in
      let (hit, same) = granted-ack p r q h here in
      record {
        is_request = asked;
        answered = same;
        holds =
            subst (Holds f p.client_mac p.xid p.offered_ip later) (sym (granted_pool p r))
              (handle_request-Holds f p.client_mac p.xid p.offered_ip now later m hit);
      }

  route_packet-ack :
      (k : Kind) (p : DhcpPacket) (now later : F) (m : IpManager f) (q : DhcpPacket)
      → kind_of p.message_type ≡ k
      → q.message_type ≡ "ACK"
      → Member q (route_packet f k p now later m).1
      → Answers p later (route_packet f k p now later m).0 q
  unfolding answer_discover
  route_packet-ack discover p now later m q e h here =
      absurd (offered-ack p (handle_discover f p.client_mac p.xid now later m) q h here)
  route_packet-ack request p now later m q e h here =
      answer_request-ack p now later m q (kind_of-request p.message_type e) h here
  route_packet-ack other p now later m q e h here = absurd here

  -- What stands behind an ACK: the datagram that asked for it, after some others, and the pool behind it.
  pub record IsGranted (py : Python) (arrivals : List (Arrival f)) (m : IpManager f)
      (q : DhcpPacket) : Type 0 where
    pub before : List (Arrival f)
    pub arrival : Arrival f
    pub after : List (Arrival f)
    pub asked : DhcpPacket
    pub split : arrivals ≡ before ++ arrival ∷ after
    pub received : from_bytes py arrival.data_ ≡ some asked
    pub is_request : asked.message_type ≡ "REQUEST"
    pub answered : q ≡ ack_packet asked
    pub holds :
        Holds f asked.client_mac asked.xid asked.offered_ip arrival.later
          (serve_forever f py (before ++ arrival ∷ []) m).0

  handle_parsed-ack :
      (o : Option DhcpPacket) (now later : F) (m : IpManager f) (q : DhcpPacket)
      → q.message_type ≡ "ACK"
      → Member q (handle_parsed f o now later m).1
      → (p : DhcpPacket) × (o ≡ some p) × Answers p later (handle_parsed f o now later m).0 q
  handle_parsed-ack none now later m q h here = absurd here
  handle_parsed-ack (some p) now later m q h here =
      (p, refl, route_packet-ack (kind_of p.message_type) p now later m q refl h here)

  first-IsGranted :
      (py : Python) (a : Arrival f) (rest : List (Arrival f)) (m : IpManager f) (q : DhcpPacket)
      → q.message_type ≡ "ACK"
      → Member q (handle_packet f py a.data_ a.now a.later m).1
      → IsGranted py (a ∷ rest) m q
  unfolding handle_packet serve_forever
  first-IsGranted py a rest m q h here =
      let (p, e, answers) = handle_parsed-ack (from_bytes py a.data_) a.now a.later m q h here in
      record {
        before = [];
        arrival = a;
        after = rest;
        asked = p;
        split = refl;
        received = e;
        is_request = answers.is_request;
        answered = answers.answered;
        holds = answers.holds;
      }

  later-IsGranted :
      (py : Python) (a : Arrival f) (rest : List (Arrival f)) (m : IpManager f) (q : DhcpPacket)
      → IsGranted py rest (handle_packet f py a.data_ a.now a.later m).0 q
      → IsGranted py (a ∷ rest) m q
  unfolding serve_forever
  later-IsGranted py a rest m q g = record {
    before = a ∷ g.before;
    arrival = g.arrival;
    after = g.after;
    asked = g.asked;
    split = ap (λ b. a ∷ b) g.split;
    received = g.received;
    is_request = g.is_request;
    answered = g.answered;
    holds = g.holds;
  }

  -- An ACK that the server sends repeats a REQUEST that it has received, and the pool behind that REQUEST
  -- says that its client holds the address, under its transaction and for an hour more.
  pub serve_forever-IsGranted :
      (py : Python) (arrivals : List (Arrival f)) (m : IpManager f) (q : DhcpPacket)
      → q.message_type ≡ "ACK"
      → Member q (serve_forever f py arrivals m).1
      → IsGranted py arrivals m q
  unfolding serve_forever
  serve_forever-IsGranted py [] m q h here = absurd here
  serve_forever-IsGranted py (a ∷ rest) m q h here =
      let (m', sent) = handle_packet f py a.data_ a.now a.later m in
      elim (Member-++ q sent (serve_forever f py rest m').1 here) [
        | inl now ↦ first-IsGranted py a rest m q h now
        | inr next ↦ later-IsGranted py a rest m q (serve_forever-IsGranted py rest m' q h next)
      ]
