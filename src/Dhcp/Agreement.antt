-- ===== src/Dhcp/Agreement.antt =====
-- The client and the server after a handshake.
use rudp_agent_stack.Base.{
  ℕ, ◌≡◌, refl, sym, ap, ◌∙◌, subst, String, true, Option, some, List, [], ◌∷◌, ◌++◌, map, Member,
  All, inl, inr,
}
use rudp_agent_stack.Rudp.Float.{Float}
use rudp_agent_stack.Agent.Values.{Python}
use rudp_agent_stack.Dhcp.{IpManager}
use rudp_agent_stack.Dhcp.Handshake.{Holds}
use rudp_agent_stack.Dhcp.Packet.{DhcpPacket, from_bytes}
use rudp_agent_stack.Dhcp.Server.{Arrival, serve_forever}
use rudp_agent_stack.Dhcp.Granted.{IsGranted, serve_forever-IsGranted}
use rudp_agent_stack.Dhcp.Client.{Sent, DhcpClient, bound, acquire_lease}
use rudp_agent_stack.Dhcp.Acquire.{Heard, IsBound, acquire_lease-IsBound}
use rudp_agent_stack.Dhcp.Sending.{IsOwn, acquire_lease-SendsOwn}

Member-here : {A : Type 0} (xs ys : List A) (x : A) → Member x (xs ++ x ∷ ys)
Member-here [] ys x = inl refl
Member-here (y ∷ xs) ys x = inr (Member-here xs ys x)

sent-IsOwn :
    (mac : String) (xid : ℕ) (sent : List Sent) (p : DhcpPacket)
    → All (λ (s : Sent). IsOwn mac xid s.packet) sent
    → Member p (map (λ (s : Sent). s.packet) sent)
    → IsOwn mac xid p
sent-IsOwn mac xid [] p h m = absurd m
sent-IsOwn mac xid (s ∷ rest) p h (inl e) = subst (IsOwn mac xid) e h.0
sent-IsOwn mac xid (s ∷ rest) p h (inr m) = sent-IsOwn mac xid rest p h.1 m

module _ (f : Float) where
  open f use {F}

  abbrev pub packets_of : DhcpClient f → List DhcpPacket
  packets_of c = map (λ (s : Sent). s.packet) c.sent

  -- The address that the client is bound to is the one that the server holds for it, and the client takes
  -- it for a lease of no time.
  pub record IsAgreed (py : Python) (arrivals : List (Arrival f)) (m : IpManager f) (mac : String)
      (xid : ℕ) (c : DhcpClient f) : Type 0 where
    pub ip : String
    pub before : List (Arrival f)
    pub arrival : Arrival f
    pub after : List (Arrival f)
    pub split : arrivals ≡ before ++ arrival ∷ after
    pub holds : Holds f mac xid ip arrival.later (serve_forever f py (before ++ arrival ∷ []) m).0
    pub in_state : c.state ≡ bound
    pub assigned : c.assigned_ip ≡ some ip
    pub lease : c.lease_time ≡ 0

  agree :
      (py : Python) (arrivals : List (Arrival f)) (m : IpManager f) (mac : String) (xid : ℕ)
      (ip : String) (monotonic : F) (P : DhcpPacket → Type 0) (c : DhcpClient f)
      (b : IsBound f xid ip monotonic P c) (g : IsGranted f py arrivals m b.packet)
      → IsOwn mac xid g.asked
      → IsAgreed py arrivals m mac xid c
  agree py arrivals m mac xid ip monotonic P c b g own =
      let asked_ip : g.asked.offered_ip ≡ ip =
        sym (ap (λ (p : DhcpPacket). p.offered_ip) g.answered) ∙ b.same_ip in
      record {
        ip = ip;
        before = g.before;
        arrival = g.arrival;
        after = g.after;
        split = g.split;
        holds = rw (sym own.same_mac, sym own.same_xid, sym asked_ip) g.holds;
        in_state = b.in_state;
        assigned = b.assigned;
        lease = b.lease ∙ ap (λ (p : DhcpPacket). p.lease_time) g.answered ∙ own.no_time;
      }

  -- A client that has sent nothing before runs the handshake, and it succeeds. When every packet that
  -- reaches the client after its REQUESTs is one that the server sent, and every packet that reaches the
  -- server under the client's transaction is one that the client sent, then behind some arrival the server
  -- holds for the client, under that transaction and for an hour more, the address that the client is
  -- bound to. The client takes the lease to be of zero seconds.
  pub acquire_lease-IsAgreed :
      (py : Python) (arrivals : List (Arrival f)) (m : IpManager f) (xid : ℕ) (monotonic : F)
      (offers acks : List (List (Option DhcpPacket))) (c : DhcpClient f)
      → c.sent ≡ []
      → (acquire_lease f xid monotonic offers acks c).1 ≡ true
      → ((p : DhcpPacket) → Heard p acks → Member p (serve_forever f py arrivals m).1)
      → ((a : Arrival f) (p : DhcpPacket)
          → Member a arrivals
          → from_bytes py a.data_ ≡ some p
          → p.xid ≡ xid
          → Member p (packets_of (acquire_lease f xid monotonic offers acks c).0))
      → IsAgreed py arrivals m c.mac_address xid (acquire_lease f xid monotonic offers acks c).0
  acquire_lease-IsAgreed py arrivals m xid monotonic offers acks c fresh done honest unique =
      let (ip, selected, b) = acquire_lease-IsBound f xid monotonic offers acks c done in
      let g = serve_forever-IsGranted f py arrivals m b.packet b.is_ack (honest b.packet b.heard) in
      let same : g.asked.xid ≡ xid = sym (ap (λ (p : DhcpPacket). p.xid) g.answered) ∙ b.same_xid in
      let there : Member g.arrival arrivals =
        subst (Member g.arrival) (sym g.split) (Member-here g.before g.after g.arrival) in
      let sends =
        acquire_lease-SendsOwn f c.mac_address xid monotonic offers acks c
          (record { same_mac = refl; own = rw fresh tt }) in
      agree py arrivals m c.mac_address xid ip monotonic (λ q. Heard q acks) _ b g
        (sent-IsOwn c.mac_address xid _ g.asked sends.own
          (unique g.arrival g.asked there g.received same))
