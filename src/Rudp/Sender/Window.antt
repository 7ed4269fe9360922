-- ===== src/Rudp/Sender/Window.antt =====
-- The windows: `_try_send` sends as much as they allow, and never more.
use rudp_agent_stack.Base.{
  ◌+◌, ◌≤◌, ◌≡◌, refl, true, false, ◌⊎◌, inl, inr, List, [], ◌∷◌, arith, length, nat_eq,
}
use rudp_agent_stack.Base.Dict.{length-insert}
use rudp_agent_stack.Rudp.Packet.{RudpPacket}
use rudp_agent_stack.Rudp.Float.{Float}
use rudp_agent_stack.Rudp.Sender.{Sender, window_of, launch, try_send}
use rudp_agent_stack.Rudp.Sender.Rules.{sending, try_send_rule, MaySend}

module _ (f : Float) where
  open f use {F, of_nat, lt}

  -- The bytes in flight do not exceed the congestion window, nor the segments in flight the smaller of
  -- its segments and the window that the peer advertised.
  abbrev pub WithinWindows : Sender f → Type 0
  WithinWindows s =
      (lt s.cwnd (of_nat s.inflight_bytes) ≡ false)
      × (length s.unacked_packets ≤ window_of f s.cwnd s.peer_rwnd)

  record IsCareful (s : Sender f) (buffer : List RudpPacket) (q : Sender f) : Type 0 where
    same_cwnd : q.cwnd ≡ s.cwnd
    same_rwnd : q.peer_rwnd ≡ s.peer_rwnd
    careful : ((q.unacked_packets ≡ s.unacked_packets) × (q.wire ≡ s.wire)) ⊎ WithinWindows q

  sending-WithinWindows :
      (now : F) (p : RudpPacket) (rest : List RudpPacket) (q : Sender f)
      → MaySend f p q
      → WithinWindows (sending f p rest now q)
  unfolding launch
  sending-WithinWindows now p rest q may =
      (may.0, omega (arith, may.1, length-insert p.seq_num _ q.unacked_packets))

  -- `_try_send` leaves the congestion window and the peer's window alone; it sends nothing, or what is
  -- in flight afterwards is within both windows.
  pub try_send-WithinWindows :
      (now : F) (s : Sender f)
      → let s' = try_send f now s in
        (s'.cwnd ≡ s.cwnd)
        × (s'.peer_rwnd ≡ s.peer_rwnd)
        × (((s'.unacked_packets ≡ s.unacked_packets) × (s'.wire ≡ s.wire)) ⊎ WithinWindows s')
  try_send-WithinWindows now s =
      let h =
        try_send_rule f (IsCareful s) now
          (λ buffer q w k. record {
            same_cwnd = k.same_cwnd;
            same_rwnd = k.same_rwnd;
            careful = k.careful;
          })
          (λ p rest q may k. record {
            same_cwnd = unfold launch in k.same_cwnd;
            same_rwnd = unfold launch in k.same_rwnd;
            careful = inr (sending-WithinWindows now p rest q may);
          })
          s (record { same_cwnd = refl; same_rwnd = refl; careful = inl (refl, refl) }) in
      (h.same_cwnd, h.same_rwnd, h.careful)

  -- The head of the buffer may not be sent.
  abbrev pub IsBlocked : List RudpPacket → Sender f → Type 0
  IsBlocked [] s = Unit
  IsBlocked (p ∷ rest) s =
      (lt s.cwnd (of_nat (s.inflight_bytes + length p.payload)) ≡ true)
      ⊎ (window_of f s.cwnd s.peer_rwnd ≤ length s.unacked_packets)
