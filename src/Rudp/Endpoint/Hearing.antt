-- ===== src/Rudp/Endpoint/Hearing.antt =====
-- A datagram that arrives keeps what holds between two endpoints, in both directions.
use rudp_agent_stack.Base.{
  ◌≤◌, ◌≡◌, refl, sym, true, inl, inr, [], ◌++◌, ok, err, arith, All-imp, All-append, All-Member,
  Member-++, length-take, append-nil,
}
use rudp_agent_stack.Exceptions.{Py}
use rudp_agent_stack.Bytes.{Bytes}
use rudp_agent_stack.Rudp.Packet.{RudpPacket, has_data, unpack}
use rudp_agent_stack.Rudp.Receiver.Stream.{Carries}
use rudp_agent_stack.Rudp.Float.{Float}
use rudp_agent_stack.Rudp.Sender.Stream.{IsDatagram, unpack-IsDatagram}
use rudp_agent_stack.Rudp.Sender.Run.{stream_of}
use rudp_agent_stack.Rudp.Connection.{on_packet_received}
use rudp_agent_stack.Rudp.Connection.Delivery.{datagram_packet, datagram_drop}
use rudp_agent_stack.Rudp.Endpoint.{Endpoint, hear, sent_now, IsGarbled, MayArrive}
use rudp_agent_stack.Rudp.Endpoint.Acknowledging.{Acknowledges, Acknowledges-wider}
use rudp_agent_stack.Rudp.Endpoint.Invariant.{
  OneWay, first, expected, sent_pieces, advance, packet-IsFaithful, packet-IsSpeaking,
  packet-replies, packet_grows,
}

module _ (f : Float) where
  open f use {F}

  abbrev pub BothWays : Endpoint f → Endpoint f → Type 0
  BothWays a b = OneWay f a b × OneWay f b a

  -- No more has arrived than was sent.
  pub arrived_sent : (a b : Endpoint f) → OneWay f a b → expected f b ≤ first f a
  arrived_sent a b h =
      omega (arith, h.faithful.within, length-take (first f a) (stream_of a.queued))

  -- A packet that acknowledges no more than has arrived, and whose data was sent.
  packet-BothWays :
      (a b : Endpoint f) (p : RudpPacket) (now : F)
      → p.ack_num ≤ expected f b
      → (has_data p ≡ true → Carries (sent_pieces f b) p)
      → BothWays a b
      → let (c, sent) = on_packet_received f p now a.connection in
        BothWays (record a { connection = c; replies = a.replies ++ sent_now sent }) b
  packet-BothWays a b p now honest carries (h, k) =
      let (c, sent) = on_packet_received f p now a.connection in
      let a' : Endpoint f = record a { connection = c; replies = a.replies ++ sent_now sent } in
      let up = packet_grows f p now a.connection in
      (
        advance f a b a' [] (sym (append-nil (stream_of a.queued)))
            (packet-IsSpeaking f a.queued (first f a) (expected f b) p now a.connection honest
              (arrived_sent a b h) h.speaking)
            h,
        record {
          speaking = (k.speaking.0, k.speaking.1, omega (arith, k.speaking.2));
          faithful = packet-IsFaithful f (sent_pieces f b) p now a.connection carries k.faithful;
          honest =
              All-append (Acknowledges (expected f a')) a.replies (sent_now sent)
                (All-imp (Acknowledges (expected f a)) (Acknowledges (expected f a')) a.replies
                  (λ bs. Acknowledges-wider (expected f a) (expected f a') bs up) k.honest)
                (packet-replies f (expected f a') p now a.connection (omega arith));
        },
      )

  read-BothWays :
      (a b : Endpoint f) (data_ : Bytes) (p : RudpPacket) (now : F)
      → unpack data_ ≡ ok p
      → p.ack_num ≤ expected f b
      → (has_data p ≡ true → Carries (sent_pieces f b) p)
      → BothWays a b
      → BothWays (hear f data_ now a) b
  unfolding hear
  read-BothWays a b data_ p now read honest carries h =
      rw (datagram_packet f data_ now a.connection p read)
        (packet-BothWays a b p now honest carries h)

  dropped-BothWays :
      (a b : Endpoint f) (data_ : Bytes) (now : F)
      → IsGarbled data_
      → BothWays a b
      → BothWays (hear f data_ now a) b
  unfolding hear
  dropped-BothWays a b data_ now garbled h = go (unpack data_) refl
    where
      go : (r : Py RudpPacket) → unpack data_ ≡ r → BothWays (hear f data_ now a) b
      go (ok p) e = absurd (garbled p e)
      go (err x) e = rw (datagram_drop f data_ now a.connection x e, append-nil a.replies) h

  pub hear-BothWays :
      (a b : Endpoint f) (data_ : Bytes) (now : F)
      → MayArrive f data_ b
      → BothWays a b
      → BothWays (hear f data_ now a) b
  hear-BothWays a b data_ now (inr garbled) h = dropped-BothWays a b data_ now garbled h
  hear-BothWays a b data_ now (inl sent) (h, k) =
      elim (Member-++ data_ b.connection.sender.wire b.replies sent) [
        | inl segment ↦
            let (p, read, part) = unpack-IsDatagram (sent_pieces f b) data_ (
              All-Member (IsDatagram (sent_pieces f b)) data_ b.connection.sender.wire
                k.speaking.0.wired segment) in
            read-BothWays a b data_ p now read (omega (arith, part.no_ack)) (λ _. part.carries)
              (h, k)
        | inr reply ↦
            let ack = All-Member (Acknowledges (expected f b)) data_ b.replies h.honest reply in
            read-BothWays a b data_ ack.packet now ack.read ack.at_most
              (λ with_data. absurd (ground (arith, ack.no_data, with_data))) (h, k)
      ]
