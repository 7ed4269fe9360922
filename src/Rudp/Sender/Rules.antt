-- ===== src/Rudp/Sender/Rules.antt =====
-- Rules for the parts of the sender: what a property has to survive for the whole step to keep it.
use rudp_agent_stack.Base.{
  ℕ, ◌+◌, ◌<◌, ◌≡◌, false, inl, inr, Option, none, some, List, [], ◌∷◌, arith, length, leb,
  Bool-cases, true, not, ◌&&◌, ◌==◌, ltb, nat_eq,
}
use rudp_agent_stack.Base.Dict.{lookup}
use rudp_agent_stack.Constants.{mss}
use rudp_agent_stack.Rudp.Packet.{RudpPacket}
use rudp_agent_stack.Rudp.Float.{Float, minimum}
use rudp_agent_stack.Rudp.Sender.{
  CcState, slow_start, avoidance, fast_recovery, Flight, Sender, window_of, launch, send_loop,
  try_send,
}
use rudp_agent_stack.Rudp.Sender.Acknowledge.{
  measure, sample_rtt, grow, halved, resend, new_ack, duplicate_ack, on_ack_received, expire,
  is_fast_recovery,
}

module _ (f : Float) where
  open f use {F, of_nat, decimal, add, sub, mul, lt, le}

  -- The round of the loop that sends `p`.
  abbrev pub sending : RudpPacket → List RudpPacket → F → Sender f → Sender f
  sending p rest now s =
      launch f p now
        (record s { effective_window = window_of f s.cwnd s.peer_rwnd; send_buffer = p ∷ rest })

  -- The two tests that let a packet go.
  abbrev pub MaySend : RudpPacket → Sender f → Type 0
  MaySend p s =
      (lt s.cwnd (of_nat (s.inflight_bytes + length p.payload)) ≡ false)
      × (length s.unacked_packets < window_of f s.cwnd s.peer_rwnd)

  module _ {ℓ} (P : List RudpPacket → Sender f → Type ℓ) (now : F)
      (stop : (buffer : List RudpPacket) (s : Sender f) (w : ℕ)
        → P buffer s
        → P buffer (record s { effective_window = w; send_buffer = buffer }))
      (go : (p : RudpPacket) (rest : List RudpPacket) (s : Sender f)
        → MaySend p s
        → P (p ∷ rest) s
        → P rest (sending p rest now s)) where
    pub send_loop_rule :
        (buffer : List RudpPacket) (s : Sender f)
        → P buffer s
        → P (send_loop f buffer now s).send_buffer (send_loop f buffer now s)
    unfolding send_loop
    send_loop_rule [] s h = stop [] s s.effective_window h
    send_loop_rule (p ∷ rest) s h =
        elim (Bool-cases (lt s.cwnd (of_nat (s.inflight_bytes + length p.payload)))) [
          | inl full ↦ rw full (stop (p ∷ rest) s s.effective_window h)
          | inr room ↦
              rw room
                (elim (Bool-cases
                  (leb (window_of f s.cwnd s.peer_rwnd) (length s.unacked_packets))) [
                    | inl full ↦ rw full (stop (p ∷ rest) s _ h)
                    | inr free ↦ rw free (
                        send_loop_rule rest (sending p rest now s)
                          (go p rest s (room, ground arith) h))
                  ])
        ]

    pub try_send_rule :
        (s : Sender f) → P s.send_buffer s → P (try_send f now s).send_buffer (try_send f now s)
    unfolding try_send
    try_send_rule s h = send_loop_rule s.send_buffer s h

  -- The estimate of the round trip touches its own fields alone.
  pub sample_rtt_rule {ℓ} :
      (P : Sender f → Type ℓ) (info : Option (Flight f)) (now : F) (s : Sender f)
      → P s
      → ((a b : Option F) (c : F) → P (record s { srtt = a; rttvar = b; rto = c }))
      → P (sample_rtt f info now s)
  unfolding sample_rtt measure
  sample_rtt_rule P none now s h change = h
  sample_rtt_rule P (some info) now s h change = elim (Bool-cases info.is_retransmitted) [
    | inl again ↦ rw again h
    | inr once ↦ rw once (change _ _ _)
  ]

  pub grow_rule {ℓ} :
      (P : Sender f → Type ℓ) (c : CcState) (s : Sender f)
      → ((w : F) (c' : CcState) → P (record s { cwnd = w; cc_state = c' }))
      → P (grow f c s)
  unfolding grow
  grow_rule P slow_start s h = h _ _
  grow_rule P avoidance s h = h _ s.cc_state
  grow_rule P fast_recovery s h = h _ _

  -- What the third duplicate acknowledgment and the ones behind it make of the sender, and an expiry.
  abbrev pub entered : Sender f → Sender f
  entered s = record s {
    dup_ack_count = s.dup_ack_count + 1;
    cc_state = fast_recovery;
    ssthresh = halved f s;
    cwnd = add (halved f s) (mul (decimal 30 10) (of_nat mss));
  }

  abbrev pub inflated : Sender f → Sender f
  inflated s = record s { dup_ack_count = s.dup_ack_count + 1; cwnd = add s.cwnd (of_nat mss) }

  abbrev pub backed_off : Sender f → Sender f
  backed_off s = record s {
    ssthresh = halved f s;
    cwnd = of_nat mss;
    cc_state = slow_start;
    rto = minimum f (mul s.rto (decimal 20 10)) s.max_rto;
  }

  module _ {ℓ} (P : Sender f → Type ℓ) (now : F) where
    pub duplicate_ack_rule :
        (s : Sender f)
        → P (resend f (lookup s.base s.unacked_packets) now (entered s))
        → P (try_send f now (inflated s))
        → P (record s { dup_ack_count = s.dup_ack_count + 1 })
        → P (duplicate_ack f now s)
    unfolding duplicate_ack
    duplicate_ack_rule s enter inflate count =
        elim (Bool-cases (s.dup_ack_count + 1 == 3 && not (is_fast_recovery s.cc_state))) [
          | inl third ↦ rw third enter
          | inr not_third ↦
              rw not_third
                (elim (Bool-cases (ltb 3 (s.dup_ack_count + 1) && is_fast_recovery s.cc_state)) [
                  | inl more ↦ rw more inflate
                  | inr less ↦ rw less count
                ])
        ]

    pub on_ack_received_rule :
        (ack rwnd : ℕ) (s : Sender f)
        → (ltb s.base ack ≡ true → P (new_ack f ack now (record s { peer_rwnd = rwnd })))
        → P (duplicate_ack f now (record s { peer_rwnd = rwnd }))
        → P (record s { peer_rwnd = rwnd })
        → P (on_ack_received f ack rwnd now s)
    unfolding on_ack_received
    on_ack_received_rule ack rwnd s new duplicate old = elim (Bool-cases (ltb s.base ack)) [
      | inl up ↦ rw up (new up)
      | inr same ↦ rw same (elim (Bool-cases ((ack == s.last_ack_received) && (ack == s.base))) [
        | inl dup ↦ rw dup duplicate
        | inr other ↦ rw other old
      ])
    ]

    pub expire_rule :
        (o : Option (Flight f)) (s : Sender f)
        → P (resend f o now (backed_off s))
        → P s
        → P (expire f o now s)
    unfolding expire
    expire_rule none s late early = early
    expire_rule (some info) s late early = elim (Bool-cases (le s.rto (sub now info.sent_time))) [
      | inl e ↦ rw e late
      | inr e ↦ rw e early
    ]
