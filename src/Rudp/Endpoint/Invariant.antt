-- ===== src/Rudp/Endpoint/Invariant.antt =====
-- What holds between an endpoint that sends and the one that receives.
use rudp_agent_stack.Base.{
  ℕ, ◌-◌, ◌≤◌, ◌≡◌, refl, sym, ap, ◌∙◌, subst, true, List, ◌++◌, arith, length, take, drop, All,
  Bool-cases, inl, inr, take_append, take_wider, nat_eq,
}
use rudp_agent_stack.Bytes.{Bytes}
use rudp_agent_stack.Rudp.Packet.{RudpPacket, is_ack, has_data}
use rudp_agent_stack.Rudp.Message.{Piece}
use rudp_agent_stack.Rudp.Receiver.{Receiver, process_segment}
use rudp_agent_stack.Rudp.Receiver.Stream.{
  IsFaithful, Carries, IsFaithful-append, process_segment-IsFaithful, process_segment-ack_num,
}
use rudp_agent_stack.Rudp.Receiver.Progress.{process_segment_grows}
use rudp_agent_stack.Rudp.Float.{Float}
use rudp_agent_stack.Rudp.Sender.{Sender}
use rudp_agent_stack.Rudp.Sender.Ledger.{IsSound, first_unsent}
use rudp_agent_stack.Rudp.Sender.Base.{Expects, on_ack_received-Expects}
use rudp_agent_stack.Rudp.Sender.Acks.{on_ack_received-IsSound}
use rudp_agent_stack.Rudp.Sender.Truthful.{IsTruthful, on_ack_received-IsTruthful}
use rudp_agent_stack.Rudp.Sender.Run.{stream_of}
use rudp_agent_stack.Rudp.Connection.{Connection, acknowledge, on_packet_received}
use rudp_agent_stack.Rudp.Connection.Delivery.{packet_receiver}
use rudp_agent_stack.Rudp.Endpoint.{Endpoint, sent_now}
use rudp_agent_stack.Rudp.Endpoint.Acknowledging.{Acknowledges, send_ack-Acknowledges}

module _ (f : Float) where
  open f use {F}

  abbrev pub first : Endpoint f → ℕ
  first e = first_unsent f e.connection.sender.send_buffer e.connection.sender

  -- The pieces that an endpoint has sent.
  abbrev pub sent_pieces : Endpoint f → List Piece
  sent_pieces e = take (first e) (stream_of e.queued)

  -- The sender of these messages has sent at least `low` segments and counts on at most `n`.
  abbrev pub IsSpeaking : List Bytes → ℕ → ℕ → Sender f → Type 0
  IsSpeaking queued low n s = IsTruthful f (stream_of queued) low s × IsSound f s × Expects f n s

  abbrev pub expected : Endpoint f → ℕ
  expected e = e.connection.receiver.expected_seq

  -- `a` sends, `b` receives: the sender's books are in order, its segments are those of its messages, and it
  -- counts on no more than has arrived; the receiver holds segments that were sent, and acknowledges no
  -- more than it has passed on.
  pub record OneWay (a b : Endpoint f) : Type 0 where
    pub speaking : IsSpeaking a.queued (first a) (expected b) a.connection.sender
    pub faithful : IsFaithful (sent_pieces a) b.connection.receiver
    pub honest : All (Acknowledges (expected b)) b.replies

  raise :
      (queued : List Bytes) (low n : ℕ) (s : Sender f)
      → IsSpeaking queued low n s
      → IsSpeaking queued (first_unsent f s.send_buffer s) n s
  raise queued low n s (h, sound, below) = (
    record {
      numbered = h.numbered;
      room = h.room;
      above = omega arith;
      buffered = h.buffered;
      flying = h.flying;
      waiting = h.waiting;
      wired = h.wired;
    },
    sound,
    below,
  )

  sent_more :
      (pieces more : List Piece) (m n : ℕ)
      → m ≤ n
      → m ≤ length pieces
      → take n (pieces ++ more) ≡ take m pieces ++ take (n - m) (drop m (pieces ++ more))
  sent_more pieces more m n up within =
      take_wider (pieces ++ more) m n up
      ∙ ap (λ l. l ++ take (n - m) (drop m (pieces ++ more))) (take_append pieces more m within)

  -- What the sending end does on its own: more messages, more segments on the way.
  pub advance :
      (a b a' : Endpoint f) (more : List Piece)
      → stream_of a'.queued ≡ stream_of a.queued ++ more
      → IsSpeaking a'.queued (first a) (expected b) a'.connection.sender
      → OneWay a b
      → OneWay a' b
  advance a b a' more grown speaking h =
      let up : first a ≤ first a' = speaking.0.above in
      let sent : sent_pieces a'
          ≡ sent_pieces a
            ++ take (first a' - first a) (drop (first a) (stream_of a.queued ++ more)) =
        ap (λ l. take (first a') l) grown
        ∙ sent_more (stream_of a.queued) more (first a) (first a') up
            (omega (arith, h.speaking.0.numbered)) in
      record {
        speaking = raise a'.queued (first a) (expected b) a'.connection.sender speaking;
        faithful =
            subst (λ l. IsFaithful l b.connection.receiver) (sym sent)
              (IsFaithful-append (sent_pieces a) _ b.connection.receiver h.faithful);
        honest = h.honest;
      }

  acknowledge-IsSpeaking :
      (queued : List Bytes) (low n : ℕ) (p : RudpPacket) (now : F) (c : Connection f)
      → p.ack_num ≤ n
      → n ≤ first_unsent f c.sender.send_buffer c.sender
      → IsSpeaking queued low n c.sender
      → IsSpeaking queued low n (acknowledge f p now c).sender
  unfolding acknowledge
  acknowledge-IsSpeaking queued low n p now c honest sent (h, sound, below) =
      elim (Bool-cases (is_ack p)) [
        | inl ack ↦ rw ack (
          on_ack_received-IsTruthful f (stream_of queued) low p.ack_num p.rwnd now c.sender h,
          on_ack_received-IsSound f p.ack_num p.rwnd now c.sender (omega arith) sound,
          on_ack_received-Expects f n p.ack_num p.rwnd now c.sender honest below,
        )
        | inr silent ↦ rw silent (h, sound, below)
      ]

  -- What the receiving end makes of a packet, of which it keeps nothing but a segment that was sent.
  pub packet-IsFaithful :
      (pieces : List Piece) (p : RudpPacket) (now : F) (c : Connection f)
      → (has_data p ≡ true → Carries pieces p)
      → IsFaithful pieces c.receiver
      → IsFaithful pieces (on_packet_received f p now c).0.receiver
  packet-IsFaithful pieces p now c carries h = elim (Bool-cases (has_data p)) [
    | inl data_ ↦
        rw (packet_receiver f p now c, data_)
          (process_segment-IsFaithful pieces c.receiver p (carries data_) h)
    | inr none_ ↦ rw (packet_receiver f p now c, none_) h
  ]

  pub packet-IsSpeaking :
      (queued : List Bytes) (low n : ℕ) (p : RudpPacket) (now : F) (c : Connection f)
      → p.ack_num ≤ n
      → n ≤ first_unsent f c.sender.send_buffer c.sender
      → IsSpeaking queued low n c.sender
      → IsSpeaking queued low n (on_packet_received f p now c).0.sender
  unfolding on_packet_received
  packet-IsSpeaking queued low n p now c honest sent h =
      let after = acknowledge-IsSpeaking queued low n p now c honest sent h in
      elim (Bool-cases (has_data p)) [ inl e ↦ rw e after | inr e ↦ rw e after ]

  pub packet-replies :
      (n : ℕ) (p : RudpPacket) (now : F) (c : Connection f)
      → (on_packet_received f p now c).0.receiver.expected_seq ≤ n
      → All (Acknowledges n) (sent_now (on_packet_received f p now c).1)
  unfolding on_packet_received
  packet-replies n p now c h = elim (Bool-cases (has_data p)) [
    | inl e ↦
        let r = (acknowledge f p now c).receiver in
        let same : (on_packet_received f p now c).0.receiver ≡ (process_segment p r).0 =
          rw e refl in
        let bound : (process_segment p r).1.ack_num ≤ n =
          subst (λ k. k ≤ n)
            (ap (λ (q : Receiver). q.expected_seq) same ∙ sym (process_segment-ack_num p r)) h in
        rw e (send_ack-Acknowledges n (process_segment p r).1 bound)
    | inr e ↦ rw e tt
  ]

  -- A packet never takes anything back.
  pub packet_grows :
      (p : RudpPacket) (now : F) (c : Connection f)
      → c.receiver.expected_seq ≤ (on_packet_received f p now c).0.receiver.expected_seq
  packet_grows p now c = elim (Bool-cases (has_data p)) [
    | inl e ↦ rw (packet_receiver f p now c, e) (process_segment_grows c.receiver p)
    | inr e ↦ rw (packet_receiver f p now c, e) (omega arith)
  ]
