-- ===== src/Rudp/Receiver/Stream.antt =====
-- The receiver reassembles the stream: whatever the network loses, repeats or reorders, the messages
-- that it delivers are those of the segments below `expected_seq`, in their order.
use rudp_agent_stack.Base.{
  ℕ, ◌≤◌, ◌≡◌, refl, ap, ◌∙◌, subst, inl, inr, some, List, [], ◌∷◌, arith, length, Option-cases,
  nat_eq, take, get_elem?, get_elem?-lt, take-suc, All, sym, ◌++◌, length-append, take_append,
  get_elem?-append,
}
use native.Mathlib.Numerals.{add-one}
use rudp_agent_stack.Base.Dict.{
  lookup, Entries, Entries-lookup, Entries-insert, Entries-remove, Entries-imp,
}
use rudp_agent_stack.Rudp.Packet.{RudpPacket}
use rudp_agent_stack.Rudp.Message.{Piece, piece_of, assemble, assemble-append_one}
use rudp_agent_stack.Rudp.Receiver.{
  Receiver, accept, in_order, buffer, route, process_segment, process_all, init, answer,
}
use rudp_agent_stack.Rudp.Receiver.Drain.{round, drain_inv}
use rudp_agent_stack.Rudp.Receiver.Window.{route_rule, flow_control_rule}

module _ (pieces : List Piece) where
  -- The segment is the one that the stream has at its sequence number.
  abbrev pub Carries : RudpPacket → Type 0
  Carries segment = get_elem? pieces segment.seq_num ≡ some (piece_of segment)

  abbrev pub Buffers : ℕ → RudpPacket → Type 0
  Buffers seq segment = get_elem? pieces seq ≡ some (piece_of segment)

  pub record IsFaithful (r : Receiver) : Type 0 where
    pub within : r.expected_seq ≤ length pieces
    pub pending : r.assembly_buffer ≡ (assemble (take r.expected_seq pieces)).pending
    pub delivered : r.messages ≡ (assemble (take r.expected_seq pieces)).messages
    pub buffered : Entries Buffers r.ooo_buffer

  accept-IsFaithful :
      (r : Receiver) (segment : RudpPacket)
      → Buffers r.expected_seq segment
      → IsFaithful r
      → IsFaithful (accept segment r)
  unfolding accept piece_of
  accept-IsFaithful r segment here h =
      let grown =
        ap (λ n. assemble (take n pieces)) (add-one r.expected_seq)
        ∙ ap assemble (take-suc pieces r.expected_seq _ here)
        ∙ assemble-append_one (take r.expected_seq pieces) _ in
      record {
        within = omega (arith, get_elem?-lt pieces r.expected_seq _ here);
        pending = rw (grown, h.pending) refl;
        delivered = rw (grown, h.pending, h.delivered) refl;
        buffered = h.buffered;
      }

  round-IsFaithful :
      (r : Receiver) (segment : RudpPacket)
      → lookup r.expected_seq r.ooo_buffer ≡ some segment
      → IsFaithful r
      → IsFaithful (round segment r)
  round-IsFaithful r segment present h =
      accept-IsFaithful _ segment
        (Entries-lookup Buffers r.expected_seq segment r.ooo_buffer h.buffered present)
        (record {
          within = h.within;
          pending = h.pending;
          delivered = h.delivered;
          buffered = Entries-remove Buffers r.expected_seq r.ooo_buffer h.buffered;
        })

  in_order-IsFaithful :
      (r : Receiver) (segment : RudpPacket)
      → Buffers r.expected_seq segment
      → IsFaithful r
      → IsFaithful (in_order segment r)
  unfolding in_order
  in_order-IsFaithful r segment here h =
      drain_inv IsFaithful round-IsFaithful (length r.ooo_buffer) (accept segment r)
        (accept-IsFaithful r segment here h)

  buffer-IsFaithful :
      (r : Receiver) (segment : RudpPacket)
      → Carries segment
      → IsFaithful r
      → IsFaithful (buffer segment r)
  unfolding buffer
  buffer-IsFaithful r segment here h = elim (Option-cases (lookup segment.seq_num r.ooo_buffer)) [
    | inl absent ↦ rw absent (record {
      within = h.within;
      pending = h.pending;
      delivered = h.delivered;
      buffered = Entries-insert Buffers segment.seq_num segment r.ooo_buffer here h.buffered;
    })
    | inr (old, present) ↦ rw present h
  ]

  pub process_segment-IsFaithful :
      (r : Receiver) (segment : RudpPacket)
      → Carries segment
      → IsFaithful r
      → IsFaithful (process_segment segment r).0
  unfolding process_segment
  process_segment-IsFaithful r segment here h =
      flow_control_rule IsFaithful (route segment r) λ f s.
        let k =
          route_rule IsFaithful segment r
            (λ s _. record {
              within = h.within;
              pending = h.pending;
              delivered = h.delivered;
              buffered = h.buffered;
            })
            (λ e. in_order-IsFaithful r segment (subst (λ n. Buffers n segment) e here) h)
            (λ _ _. buffer-IsFaithful r segment here h) in
        record {
          within = k.within;
          pending = k.pending;
          delivered = k.delivered;
          buffered = k.buffered;
        }

  pub process_all-IsFaithful :
      (segments : List RudpPacket) (r : Receiver)
      → All Carries segments
      → IsFaithful r
      → IsFaithful (process_all segments r)
  unfolding process_all
  process_all-IsFaithful [] r here h = h
  process_all-IsFaithful (segment ∷ rest) r here h =
      process_all-IsFaithful rest (process_segment segment r).0 here.1
        (process_segment-IsFaithful r segment here.0 h)

  pub init-IsFaithful : IsFaithful init
  unfolding assemble
  init-IsFaithful = record { within = omega arith; pending = refl; delivered = refl; buffered = tt }

  -- A fresh receiver is handed segments of one stream: some of them, in any order and any number of
  -- times. Then the messages delivered are those that the pieces of the stream below `expected_seq`
  -- complete, each once and in order, and the assembly buffer holds what they leave over.
  pub process_all-delivers :
      (segments : List RudpPacket)
      → All Carries segments
      → let r = process_all segments init in
        (r.expected_seq ≤ length pieces)
        × (r.messages ≡ (assemble (take r.expected_seq pieces)).messages)
        × (r.assembly_buffer ≡ (assemble (take r.expected_seq pieces)).pending)
  process_all-delivers segments here =
      let h = process_all-IsFaithful segments init here init-IsFaithful in
      (h.within, h.delivered, h.pending)

-- A faithful receiver stays faithful when the stream goes on.
pub IsFaithful-append :
    (pieces more : List Piece) (r : Receiver) → IsFaithful pieces r → IsFaithful (pieces ++ more) r
IsFaithful-append pieces more r h =
    let same = take_append pieces more r.expected_seq h.within in
    record {
      within = omega (arith, h.within, length-append pieces more);
      pending = h.pending ∙ ap (λ l. (assemble l).pending) (sym same);
      delivered = h.delivered ∙ ap (λ l. (assemble l).messages) (sym same);
      buffered =
          Entries-imp (Buffers pieces) (Buffers (pieces ++ more)) r.ooo_buffer
            (λ k (p : RudpPacket). get_elem?-append pieces more k (piece_of p)) h.buffered;
    }

-- The acknowledgment is of all segments below the one that is expected next.
pub process_segment-ack_num :
    (p : RudpPacket) (r : Receiver)
    → (process_segment p r).1.ack_num ≡ (process_segment p r).0.expected_seq
unfolding process_segment answer
process_segment-ack_num p r = refl
