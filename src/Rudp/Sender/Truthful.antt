-- ===== src/Rudp/Sender/Truthful.antt =====
-- Every operation of the sender, on every input, keeps it truthful about its stream.
use rudp_agent_stack.Base.{
  ℕ, suc, ◌-◌, ◌≤◌, ◌≡◌, refl, sym, subst, arith, take, All-imp, Option, none, some, List, [], ◌∷◌,
  ◌++◌, ok, err, length, nat_eq, All, All-append,
}
use rudp_agent_stack.Base.Dict.{
  Dict, lookup, Entries, Entries-insert, Entries-lookup, Entries-remove, Entries-imp,
}
use rudp_agent_stack.Exceptions.{Py, Exception}
use rudp_agent_stack.Bytes.{Bytes}
use rudp_agent_stack.Rudp.Packet.{RudpPacket, pack, is_fin}
use rudp_agent_stack.Rudp.Message.{Piece, piece_of}
use rudp_agent_stack.Rudp.Float.{Float}
use rudp_agent_stack.Rudp.Sender.{Flight, Sender, launch, try_send, transmit}
use rudp_agent_stack.Rudp.Sender.Acknowledge.{
  resend, sample_rtt, forget, forget_all, keys_below, grow, new_ack, duplicate_ack, on_ack_received,
  check_timeouts,
}
use rudp_agent_stack.Rudp.Sender.Rules.{
  sending, try_send_rule, sample_rtt_rule, grow_rule, entered, inflated, backed_off,
  duplicate_ack_rule, on_ack_received_rule, expire_rule,
}
use rudp_agent_stack.Rudp.Sender.Stream.{
  IsSegment, IsDatagram, IsSegment-take, IsSegment-wider, IsDatagram-wider,
}
use rudp_agent_stack.Rudp.Sender.Ledger.{transmit_keeps, Consecutive, first_unsent}

transmit_sends :
    (p q : RudpPacket) (bs : Bytes) (wire : List Bytes)
    → pack p ≡ ok (bs, q)
    → (transmit p wire).1 ≡ wire ++ bs ∷ []
unfolding transmit
transmit_sends p q bs wire e = rw (e, transmit) refl

transmit_fails :
    (p : RudpPacket) (x : Exception) (wire : List Bytes)
    → pack p ≡ err x
    → (transmit p wire).1 ≡ wire
unfolding transmit
transmit_fails p x wire e = rw (e, transmit) refl

module _ (pieces : List Piece) where
  -- What comes out of `transmit` is a segment again, and so is what went to the wire.
  transmit-IsSegment :
      (p : RudpPacket) (wire : List Bytes)
      → IsSegment pieces p
      → IsSegment pieces (transmit p wire).0
  unfolding piece_of is_fin
  transmit-IsSegment p wire h = rw (transmit_keeps p wire) (record {
    carries = h.carries;
    msg = h.msg;
    has_msg = h.has_msg;
    at = h.at;
    has_offset = h.has_offset;
    no_ack = h.no_ack;
  })

  transmit-wire :
      (p : RudpPacket) (wire : List Bytes)
      → IsSegment pieces p
      → All (IsDatagram pieces) wire
      → All (IsDatagram pieces) (transmit p wire).1
  transmit-wire p wire h k = go (pack p) refl
    where
      go : (r : Py (Bytes × RudpPacket)) → pack p ≡ r → All (IsDatagram pieces) (transmit p wire).1
      go (ok (bs, q)) e = rw (transmit_sends p q bs wire e) (
          All-append (IsDatagram pieces) wire (bs ∷ []) k
            (record { packet = p; packed = q; segment = h; made = e }, tt))
      go (err x) e = rw (transmit_fails p x wire e) k

module _ (f : Float) (pieces : List Piece) (low : ℕ) where
  open f use {F, le, sub}

  abbrev Flying : ℕ → ℕ → Flight f → Type 0
  Flying n k info = IsSegment (take n pieces) info.packet

  -- The stream is as long as the sequence numbers go. What is in flight and what went to the wire are
  -- segments below the first unsent one, at least `low` of them, and the buffer goes on from there.
  pub record Claims (buffer : List RudpPacket) (next_seq : ℕ) (unacked_packets : Dict ℕ (Flight f))
      (wire : List Bytes) : Type 0 where
    pub numbered : next_seq ≡ length pieces
    pub room : length buffer ≤ next_seq
    pub above : low ≤ next_seq - length buffer
    pub buffered : Consecutive (next_seq - length buffer) buffer
    pub flying : Entries (Flying (next_seq - length buffer)) unacked_packets
    pub waiting : All (IsSegment pieces) buffer
    pub wired : All (IsDatagram (take (next_seq - length buffer) pieces)) wire

  abbrev pub Truth : List RudpPacket → Sender f → Type 0
  Truth buffer s = Claims buffer s.next_seq s.unacked_packets s.wire

  abbrev pub IsTruthful : Sender f → Type 0
  IsTruthful s = Truth s.send_buffer s

  sending-Truth :
      (now : F) (p : RudpPacket) (rest : List RudpPacket) (s : Sender f)
      → Truth (p ∷ rest) s
      → Truth rest (sending f p rest now s)
  unfolding launch
  sending-Truth now p rest s h =
      let n = first_unsent f (p ∷ rest) s in
      let next : first_unsent f rest s ≡ suc n = omega (arith, h.room) in
      let up : n ≤ first_unsent f rest s = omega arith in
      let this : IsSegment (take (first_unsent f rest s) pieces) p =
        IsSegment-take pieces (first_unsent f rest s) p (omega (arith, h.buffered.0)) h.waiting.0 in
      record {
        numbered = h.numbered;
        room = omega (arith, h.room);
        above = omega (arith, h.above);
        buffered = subst (λ k. Consecutive k rest) (sym next) h.buffered.1;
        flying =
            Entries-insert (Flying (first_unsent f rest s)) p.seq_num _ s.unacked_packets
              (transmit-IsSegment (take (first_unsent f rest s) pieces) p s.wire this)
              (Entries-imp (Flying n) (Flying (first_unsent f rest s)) s.unacked_packets
                (λ k info. IsSegment-wider pieces n (first_unsent f rest s) info.packet up)
                h.flying);
        waiting = h.waiting.1;
        wired = transmit-wire (take (first_unsent f rest s) pieces) p s.wire this (
            All-imp (IsDatagram (take n pieces)) (IsDatagram (take (first_unsent f rest s) pieces))
              s.wire (λ bs. IsDatagram-wider pieces n (first_unsent f rest s) bs up) h.wired);
      }

  pub try_send-IsTruthful : (now : F) (s : Sender f) → IsTruthful s → IsTruthful (try_send f now s)
  try_send-IsTruthful now s h =
      try_send_rule f Truth now (λ buffer q w k. k) (λ p rest q _ k. sending-Truth now p rest q k) s
        h

  resend-IsTruthful :
      (now : F) (s : Sender f) (o : Option (Flight f))
      → lookup s.base s.unacked_packets ≡ o
      → IsTruthful s
      → IsTruthful (resend f o now s)
  unfolding resend
  resend-IsTruthful now s none e h = h
  resend-IsTruthful now s (some info) e h =
      let n = first_unsent f s.send_buffer s in
      let this : IsSegment (take n pieces) info.packet =
        Entries-lookup (Flying n) s.base info s.unacked_packets h.flying e in
      record {
        numbered = h.numbered;
        room = h.room;
        above = h.above;
        buffered = h.buffered;
        flying =
            Entries-insert (Flying n) s.base _ s.unacked_packets
              (transmit-IsSegment (take n pieces) info.packet s.wire this) h.flying;
        waiting = h.waiting;
        wired = transmit-wire (take n pieces) info.packet s.wire this h.wired;
      }

  pub check_timeouts-IsTruthful :
      (now : F) (s : Sender f) → IsTruthful s → IsTruthful (check_timeouts f now s)
  unfolding check_timeouts
  check_timeouts-IsTruthful now s h =
      let oldest = lookup s.base s.unacked_packets in
      expire_rule f IsTruthful now oldest s (resend-IsTruthful now (backed_off f s) oldest refl h) h

  forget_all-IsTruthful :
      (ks : List ℕ) (s : Sender f) → IsTruthful s → IsTruthful (forget_all f ks s)
  unfolding forget_all
  forget_all-IsTruthful [] s h = h
  forget_all-IsTruthful (k ∷ ks) s h = forget_all-IsTruthful ks _ (one (lookup k s.unacked_packets))
    where
      one : (o : Option (Flight f)) → IsTruthful (forget f k o s)
      one none = unfold forget in h
      one (some info) =
          unfold forget in
          record {
            numbered = h.numbered;
            room = h.room;
            above = h.above;
            buffered = h.buffered;
            flying =
                Entries-remove (Flying (first_unsent f s.send_buffer s)) k s.unacked_packets
                  h.flying;
            waiting = h.waiting;
            wired = h.wired;
          }

  new_ack-IsTruthful :
      (ack : ℕ) (now : F) (s : Sender f) → IsTruthful s → IsTruthful (new_ack f ack now s)
  unfolding new_ack
  new_ack-IsTruthful ack now s h =
      let s1 : Sender f = record s { base = ack; dup_ack_count = 0; last_ack_received = ack } in
      let s2 = sample_rtt f (lookup (ack - 1) s1.unacked_packets) now s1 in
      let s3 = forget_all f (keys_below f ack s1.unacked_packets) s2 in
      let after : IsTruthful s3 = forget_all-IsTruthful (keys_below f ack s1.unacked_packets) s2 (
        sample_rtt_rule f IsTruthful (lookup (ack - 1) s1.unacked_packets) now s1 h (λ a b c. h)) in
      try_send-IsTruthful now (grow f s3.cc_state s3)
        (grow_rule f IsTruthful s3.cc_state s3 (λ w c. after))

  duplicate_ack-IsTruthful :
      (now : F) (s : Sender f) → IsTruthful s → IsTruthful (duplicate_ack f now s)
  duplicate_ack-IsTruthful now s h =
      duplicate_ack_rule f IsTruthful now s
        (resend-IsTruthful now (entered f s) (lookup s.base s.unacked_packets) refl h)
        (try_send-IsTruthful now (inflated f s) h) h

  pub on_ack_received-IsTruthful :
      (ack rwnd : ℕ) (now : F) (s : Sender f)
      → IsTruthful s
      → IsTruthful (on_ack_received f ack rwnd now s)
  on_ack_received-IsTruthful ack rwnd now s h =
      let s1 : Sender f = record s { peer_rwnd = rwnd } in
      on_ack_received_rule f IsTruthful now ack rwnd s (λ _. new_ack-IsTruthful ack now s1 h)
        (duplicate_ack-IsTruthful now s1 h) h
