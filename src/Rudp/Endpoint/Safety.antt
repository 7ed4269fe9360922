-- ===== src/Rudp/Endpoint/Safety.antt =====
-- What holds whenever two endpoints talk to one another.
use rudp_agent_stack.Base.{
  ◌<◌, true, inl, inr, Bool-cases, if◌then◌else◌, refl, some, ℕ, ◌≤◌, ◌≡◌, ap, ◌∙◌, subst, [],
  arith, length, take, drop, take-append-drop, take_all, nat_eq,
}
use native.Mathlib.Decide.{dec_le}
use rudp_agent_stack.Base.Dict.{lookup, lookup-insert_self}
use rudp_agent_stack.Rudp.Message.{Assembly, assemble}
use rudp_agent_stack.Rudp.Receiver.Stream.{IsFaithful, IsFaithful-append}
use rudp_agent_stack.Rudp.Float.{Float}
use rudp_agent_stack.Rudp.Sender.{Flight, transmit}
use rudp_agent_stack.Rudp.Sender.Acknowledge.{check_timeouts, expire, resend}
use rudp_agent_stack.Rudp.Sender.Acks.{oldest_in_flight}
use rudp_agent_stack.Rudp.Sender.Ledger.{IsSound, first_unsent}
use rudp_agent_stack.Rudp.Sender.Run.{stream_of, assemble-stream}
use rudp_agent_stack.Rudp.Connection.Delivery.{IsFaithful-prefix}
use rudp_agent_stack.Rudp.Endpoint.{Endpoint, Pair, Reach}
use rudp_agent_stack.Rudp.Endpoint.Invariant.{OneWay, first, expected, sent_pieces}
use rudp_agent_stack.Rudp.Endpoint.Moves.{Reach-Both}
use rudp_agent_stack.Rudp.Endpoint.Hearing.{arrived_sent}

module _ (f : Float) where
  open f use {F, le, sub}

  whole-IsFaithful :
      (a b : Endpoint f) → OneWay f a b → IsFaithful (stream_of a.queued) b.connection.receiver
  whole-IsFaithful a b h =
      subst (λ l. IsFaithful l b.connection.receiver)
        (take-append-drop (first f a) (stream_of a.queued))
        (IsFaithful-append (sent_pieces f a) (drop (first f a) (stream_of a.queued))
          b.connection.receiver h.faithful)

  -- Two fresh endpoints talk over a network that loses, repeats, delays and reorders their
  -- datagrams and brings bytes that do not unpack; both send and acknowledge. At any time, each has
  -- delivered the first messages that the other one sent, unchanged, each once and in order.
  pub two_way_delivery :
      {s : Pair f}
      → Reach f s
      → ((k : ℕ) × (s.far.connection.receiver.messages ≡ take k s.near.queued))
        × ((k : ℕ) × (s.near.connection.receiver.messages ≡ take k s.far.queued))
  two_way_delivery {s} r =
      let (h, k) = Reach-Both f r in
      (
        IsFaithful-prefix s.near.queued s.far.connection.receiver (whole-IsFaithful s.near s.far h),
        IsFaithful-prefix s.far.queued s.near.connection.receiver (whole-IsFaithful s.far s.near k),
      )

  -- At any time while two fresh endpoints talk over a network that loses, repeats, delays and
  -- reorders, a sender's books are in order: in flight are exactly the packets from `base` up to
  -- the first unsent one, and `inflight_bytes` counts their payload. All packets below `base` have
  -- arrived in order at the other end, and all that have arrived there in order were sent.
  pub Reach-IsSound :
      {s : Pair f}
      → Reach f s
      → IsSound f s.near.connection.sender
        × (s.near.connection.sender.base ≤ s.far.connection.receiver.expected_seq)
        × (s.far.connection.receiver.expected_seq
            ≤ first_unsent f s.near.connection.sender.send_buffer s.near.connection.sender)
  Reach-IsSound {s} r =
      let (h, k) = Reach-Both f r in (h.speaking.1, h.speaking.2, arrived_sent f s.near s.far h)

  -- With nothing in flight and nothing waiting, `base` has reached the end.
  settled :
      (a b : Endpoint f)
      → OneWay f a b
      → a.connection.sender.unacked_packets ≡ []
      → a.connection.sender.send_buffer ≡ []
      → length (stream_of a.queued) ≤ expected f b
  unfolding lookup
  settled a b h landed gone =
      let sound = h.speaking.1 in
      let s = a.connection.sender in
      elim (dec_le (first f a) s.base) [
        | yes reached ↦ omega (arith, h.speaking.0.numbered, h.speaking.2, ap (λ l. length l) gone)
        | no short ↦
            absurd (ground (arith, landed, sound.complete s.base (omega arith) (omega arith)))
      ]

  -- Two fresh endpoints have talked over a network that loses, repeats, delays and reorders. When a
  -- sender has nothing in flight and nothing waiting, then the other end has delivered exactly the
  -- messages that were enqueued at it, unchanged and in order.
  pub settled_delivery :
      {s : Pair f}
      → Reach f s
      → s.near.connection.sender.unacked_packets ≡ []
      → s.near.connection.sender.send_buffer ≡ []
      → s.far.connection.receiver.messages ≡ s.near.queued
  settled_delivery {s} r landed gone =
      let h = (Reach-Both f r).0 in
      (whole-IsFaithful s.near s.far h).delivered
      ∙ ap (λ l. (assemble l).messages)
          (take_all (stream_of s.near.queued) (expected f s.far)
            (settled s.near s.far h landed gone))
      ∙ ap (λ (a : Assembly). a.messages) (assemble-stream s.near.queued)

  -- Two fresh endpoints have talked over a network that loses, repeats, delays and reorders, and a
  -- sender has something in flight. Then the packet at `base` is in flight. When `rto` has passed
  -- since it was sent, `check_timeouts` sends this packet again and no other, if it packs, and notes
  -- it as sent at this time and as sent again; otherwise nothing is sent and its note stays.
  pub check_timeouts-resends :
      {s : Pair f} (now : F)
      → Reach f s
      → 0 < length s.near.connection.sender.unacked_packets
      → let q = s.near.connection.sender in
        let q' = check_timeouts f now q in
        (info : Flight f) × (lookup q.base q.unacked_packets ≡ some info)
        × (info.packet.seq_num ≡ q.base)
        × (q'.wire ≡ (
            if le q.rto (sub now info.sent_time) then (transmit info.packet q.wire).1 else q.wire))
        × (lookup q.base q'.unacked_packets
            ≡ some (
                if le q.rto (sub now info.sent_time)
                then record {
                  packet = (transmit info.packet q.wire).0;
                  sent_time = now;
                  is_retransmitted = true;
                }
                else info))
  unfolding check_timeouts expire resend
  check_timeouts-resends {s} now r busy =
      let q = s.near.connection.sender in
      let (info, present, numbered) = oldest_in_flight f q ((Reach-Both f r).0).speaking.1 busy in
      (
        info,
        present,
        numbered,
        elim (Bool-cases (le q.rto (sub now info.sent_time))) [
          | inl late ↦ rw (present, late) refl
          | inr early ↦ rw (present, early) refl
        ],
        elim (Bool-cases (le q.rto (sub now info.sent_time))) [
          | inl late ↦ rw (present, late) (lookup-insert_self q.base _ q.unacked_packets)
          | inr early ↦ rw (present, early) present
        ],
      )
