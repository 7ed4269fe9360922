-- ===== src/Rudp/Sender/Sound.antt =====
-- Every operation of the sender keeps its books.
use rudp_agent_stack.Base.{
  ℕ, ◌+◌, ◌≤◌, ◌<◌, ◌≡◌, refl, sym, ap, ◌∙◌, subst, true, Option, none, some, List, [], ◌∷◌, ◌++◌,
  arith, length, nat_eq, length-append,
}
use rudp_agent_stack.Base.Dict.{
  lookup, Entries, lookup-insert, insert-IsDistinct, Entries-insert, Entries-lookup,
}
use rudp_agent_stack.Bytes.{Bytes}
use rudp_agent_stack.Rudp.Packet.{RudpPacket}
use rudp_agent_stack.Rudp.Float.{Float}
use rudp_agent_stack.Rudp.Sender.{Flight, Sender, push_chunks, enqueue_data, transmit, chunks}
use rudp_agent_stack.Rudp.Sender.Acknowledge.{resend, check_timeouts}
use rudp_agent_stack.Rudp.Sender.Rules.{backed_off, expire_rule}
use rudp_agent_stack.Rudp.Sender.Ledger.{
  Consecutive, Consecutive-append, IsSound, first_unsent, total-insert_again, try_send-IsSound,
  transmit-seq_num, transmit-payload,
}

module _ (f : Float) where
  open f use {F, le, sub, mul, decimal, of_nat}

  push-IsSound :
      (s : Sender f) (p : RudpPacket)
      → p.seq_num ≡ s.next_seq
      → IsSound f s
      → IsSound f (record s { send_buffer = s.send_buffer ++ p ∷ []; next_seq = s.next_seq + 1 })
  push-IsSound s p e h =
      let longer = length-append s.send_buffer (p ∷ []) in
      let same : first_unsent f (s.send_buffer ++ p ∷ []) (record s { next_seq = s.next_seq + 1 })
          ≡ first_unsent f s.send_buffer s =
        omega (arith, longer, h.room) in
      record {
        distinct = h.distinct;
        keyed =
            subst
              (λ n.
                Entries (λ k (info : Flight f). (s.base ≤ k) × (k < n) × (info.packet.seq_num ≡ k))
                  s.unacked_packets)
              (sym same) h.keyed;
        complete = λ k a b. h.complete k a (omega arith);
        counted = h.counted;
        behind = omega (arith, h.behind);
        buffered =
            subst (λ n. Consecutive n (s.send_buffer ++ p ∷ [])) (sym same)
              (Consecutive-append _ s.next_seq s.send_buffer p h.buffered (omega (arith, h.room))
                e);
        room = omega (arith, longer, h.room);
      }

  push_chunks-IsSound :
      (msg total_count i offset : ℕ) (parts : List Bytes) (s : Sender f)
      → IsSound f s
      → IsSound f (push_chunks f msg total_count i offset parts s)
  unfolding push_chunks
  push_chunks-IsSound msg n i offset [] s h = h
  push_chunks-IsSound msg n i offset (part ∷ rest) s h =
      push_chunks-IsSound msg n (i + 1) (offset + length part) rest _ (push-IsSound s _ refl h)

  -- A new message of any length leaves a sound sender sound.
  pub enqueue_data-IsSound :
      (bytes : Bytes) (msg : ℕ) (now : F) (s : Sender f)
      → IsSound f s
      → IsSound f (enqueue_data f bytes msg now s)
  unfolding enqueue_data
  enqueue_data-IsSound bytes msg now s h =
      try_send-IsSound f now _
        (push_chunks-IsSound msg (length (chunks bytes)) 0 0 (chunks bytes) s h)

  pub resend-IsSound :
      (now : F) (s : Sender f) (o : Option (Flight f))
      → lookup s.base s.unacked_packets ≡ o
      → IsSound f s
      → IsSound f (resend f o now s)
  unfolding resend
  resend-IsSound now s none e h = h
  resend-IsSound now s (some info) e h =
      let q = (transmit info.packet s.wire).0 in
      let again : Flight f = record { packet = q; sent_time = now; is_retransmitted = true } in
      let old =
        Entries-lookup
          (λ k (info : Flight f).
            (s.base ≤ k) × (k < first_unsent f s.send_buffer s) × (info.packet.seq_num ≡ k))
          s.base info s.unacked_packets h.keyed e in
      record {
        distinct = insert-IsDistinct s.base again s.unacked_packets h.distinct;
        keyed =
            Entries-insert
              (λ k (info : Flight f).
                (s.base ≤ k) × (k < first_unsent f s.send_buffer s) × (info.packet.seq_num ≡ k))
              s.base again s.unacked_packets
              (omega arith, old.1, transmit-seq_num info.packet s.wire ∙ old.2) h.keyed;
        complete =
            λ k a b. ground (arith, lookup-insert s.base k again s.unacked_packets, h.complete k);
        counted =
            h.counted
            ∙ sym (
                total-insert_again f s.base info again s.unacked_packets e
                  (ap (λ (b : Bytes). length b) (transmit-payload info.packet s.wire)));
        behind = h.behind;
        buffered = h.buffered;
        room = h.room;
      }

  -- A tick of the timer, with or without a retransmission, leaves a sound sender sound.
  pub check_timeouts-IsSound :
      (now : F) (s : Sender f) → IsSound f s → IsSound f (check_timeouts f now s)
  unfolding check_timeouts
  check_timeouts-IsSound now s h =
      let oldest = lookup s.base s.unacked_packets in
      expire_rule f (IsSound f) now oldest s (resend-IsSound now (backed_off f s) oldest refl h) h
