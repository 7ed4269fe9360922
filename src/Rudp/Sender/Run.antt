-- ===== src/Rudp/Sender/Run.antt =====
-- Runs of the sender: any sequence of messages, acknowledgments and timer ticks.
use rudp_agent_stack.Base.{
  ℕ, ◌+◌, ◌-◌, ◌≡◌, refl, ap, sym, take, drop, take_append, take-append-drop, ◌∙◌, subst, true,
  false, some, List, [], ◌∷◌, ◌++◌, arith, length, Bool-cases, nat_eq, ◌==◌, length-append,
  get_elem?, All, All-append, All-imp, append_assoc, append-nil, inl, inr,
}
use rudp_agent_stack.Base.Dict.{Entries}
use rudp_agent_stack.Bytes.{Bytes}
use rudp_agent_stack.Rudp.Packet.{RudpPacket, is_fin}
use rudp_agent_stack.Rudp.Message.{Piece, piece_of, assemble, assemble_from, assemble_from-append}
use rudp_agent_stack.Rudp.Float.{Float}
use rudp_agent_stack.Rudp.Sender.{Flight, Sender, init, push_chunks, enqueue_data, fragment, chunks}
use rudp_agent_stack.Rudp.Sender.Acknowledge.{on_ack_received, check_timeouts}
use rudp_agent_stack.Rudp.Sender.Chunks.{pieces_of_chunks, fragments, assemble_from-fragments}
use rudp_agent_stack.Rudp.Sender.Stream.{IsSegment, IsDatagram, IsSegment-append, IsDatagram-append}
use rudp_agent_stack.Rudp.Sender.Ledger.{first_unsent, Consecutive, Consecutive-append}
use rudp_agent_stack.Rudp.Sender.Truthful.{
  IsTruthful, try_send-IsTruthful, check_timeouts-IsTruthful, on_ack_received-IsTruthful,
}

-- What happens to a sender.
pub data Event (F : Type 0) : Type 0 where
  enqueue : Bytes → ℕ → F → Event F
  ack : ℕ → ℕ → F → Event F
  tick : F → Event F

piece_of-fragment :
    (seq msg total i offset : ℕ) (chunk : Bytes)
    → piece_of (fragment seq msg total i offset chunk)
      ≡ record { fin = (i == total - 1); bytes = chunk }
unfolding piece_of is_fin
piece_of-fragment seq msg total i offset chunk = elim (Bool-cases (i == total - 1)) [
  | inl last ↦ rw last refl
  | inr more ↦ rw more refl
]

get_elem?-last :
    (xs : List Piece) (x : Piece) (n : ℕ) → n ≡ length xs → get_elem? (xs ++ x ∷ []) n ≡ some x
get_elem?-last [] x n e = rw e refl
get_elem?-last (y ∷ xs) x n e = rw e (get_elem?-last xs x (length xs) refl)

abbrev pub stream_of : List Bytes → List Piece
stream_of [] = []
stream_of (bytes ∷ rest) = fragments bytes ++ stream_of rest

assemble_from-stream :
    (ms done : List Bytes)
    → assemble_from (record { pending = []; messages = done }) (stream_of ms)
      ≡ record { pending = []; messages = done ++ ms }
assemble_from-stream [] done = unfold assemble_from in rw append-nil refl
assemble_from-stream (m ∷ ms) done =
    assemble_from-append _ (fragments m) (stream_of ms)
    ∙ ap (λ a. assemble_from a (stream_of ms)) (assemble_from-fragments m done)
    ∙ assemble_from-stream ms (done ++ m ∷ [])
    ∙ ap (λ l. record { pending = []; messages = l }) (append_assoc done (m ∷ []) ms)

-- The stream of some messages assembles to exactly these messages.
pub assemble-stream :
    (ms : List Bytes) → assemble (stream_of ms) ≡ record { pending = []; messages = ms }
unfolding assemble
assemble-stream ms = assemble_from-stream ms []

module _ (f : Float) where
  open f use {F}

  push-IsTruthful :
      (pieces : List Piece) (low : ℕ) (p : RudpPacket) (m o : ℕ) (s : Sender f)
      → p.seq_num ≡ s.next_seq
      → p.msg_id ≡ some m
      → p.offset ≡ some o
      → p.ack_num ≡ 0
      → IsTruthful f pieces low s
      → IsTruthful f
          (pieces ++ piece_of p ∷ [])
          low
          (record s { send_buffer = s.send_buffer ++ p ∷ []; next_seq = s.next_seq + 1 })
  push-IsTruthful pieces low p m o s em eo en ea h =
      let more = piece_of p ∷ [] in
      let n = first_unsent f s.send_buffer s in
      let n' = s.next_seq + 1 - length (s.send_buffer ++ p ∷ []) in
      let longer = length-append s.send_buffer (p ∷ []) in
      let same : n' ≡ n = omega (arith, longer, h.room) in
      let kept : take n pieces ≡ take n' (pieces ++ more) = sym (
        ap (λ k. take k (pieces ++ more)) same
        ∙ take_append pieces more n (omega (arith, h.numbered))) in
      record {
        numbered = omega (arith, h.numbered, length-append pieces more);
        room = omega (arith, longer, h.room);
        above = omega (arith, h.above);
        buffered =
            subst (λ k. Consecutive k (s.send_buffer ++ p ∷ [])) (sym same)
              (Consecutive-append n s.next_seq s.send_buffer p h.buffered (omega (arith, h.room))
                em);
        flying =
            subst (λ l. Entries (λ k (info : Flight f). IsSegment l info.packet) s.unacked_packets)
              kept h.flying;
        waiting =
            All-append (IsSegment (pieces ++ more)) s.send_buffer (p ∷ [])
              (All-imp (IsSegment pieces) (IsSegment (pieces ++ more)) s.send_buffer
                (IsSegment-append pieces more) h.waiting)
              (
                record {
                  carries = get_elem?-last pieces (piece_of p) p.seq_num (em ∙ h.numbered);
                  msg = m;
                  has_msg = eo;
                  at = o;
                  has_offset = en;
                  no_ack = ea;
                },
                tt,
              );
        wired = subst (λ l. All (IsDatagram l) s.wire) kept h.wired;
      }

  push_chunks-IsTruthful :
      (parts : List Bytes) (pieces : List Piece) (low : ℕ) (msg total i offset : ℕ) (s : Sender f)
      → total ≡ i + length parts
      → IsTruthful f pieces low s
      → IsTruthful f
          (pieces ++ pieces_of_chunks parts)
          low
          (push_chunks f msg total i offset parts s)
  unfolding push_chunks
  push_chunks-IsTruthful [] pieces low msg total i offset s e h = rw append-nil h
  push_chunks-IsTruthful (part ∷ []) pieces low msg total i offset s e h =
      let p = fragment s.next_seq msg total i offset part in
      let last : piece_of p ≡ record { fin = true; bytes = part } =
        piece_of-fragment s.next_seq msg total i offset part
        ∙ ap (λ b. record { fin = b; bytes = part }) (ground arith) in
      subst
        (λ q.
          IsTruthful f (pieces ++ q ∷ []) low
            (record s { send_buffer = s.send_buffer ++ p ∷ []; next_seq = s.next_seq + 1 }))
        last (push-IsTruthful pieces low p msg offset s refl refl refl refl h)
  push_chunks-IsTruthful (part ∷ next ∷ rest) pieces low msg total i offset s e h =
      let p = fragment s.next_seq msg total i offset part in
      let more : piece_of p ≡ record { fin = false; bytes = part } =
        piece_of-fragment s.next_seq msg total i offset part
        ∙ ap (λ b. record { fin = b; bytes = part }) (ground arith) in
      let s' : Sender f = record s {
        send_buffer = s.send_buffer ++ p ∷ [];
        next_seq = s.next_seq + 1;
      } in
      let pushed =
        subst (λ q. IsTruthful f (pieces ++ q ∷ []) low s') more
          (push-IsTruthful pieces low p msg offset s refl refl refl refl h) in
      subst
        (λ l.
          IsTruthful f l low
            (push_chunks f msg total (i + 1) (offset + length part) (next ∷ rest) s'))
        (append_assoc pieces _ (pieces_of_chunks (next ∷ rest)))
        (push_chunks-IsTruthful (next ∷ rest) _ low msg total (i + 1) (offset + length part) s'
          (omega arith) pushed)

  pub enqueue_data-IsTruthful :
      (pieces : List Piece) (low : ℕ) (bytes : Bytes) (msg : ℕ) (now : F) (s : Sender f)
      → IsTruthful f pieces low s
      → IsTruthful f (pieces ++ fragments bytes) low (enqueue_data f bytes msg now s)
  unfolding enqueue_data fragments
  enqueue_data-IsTruthful pieces low bytes msg now s h =
      try_send-IsTruthful f (pieces ++ fragments bytes) low now _ (
        push_chunks-IsTruthful (chunks bytes) pieces low msg (length (chunks bytes)) 0 0 s
          (omega arith) h)

  unfoldable pub step : Event F → Sender f → Sender f
  step (enqueue bytes msg now) s = enqueue_data f bytes msg now s
  step (ack n rwnd now) s = on_ack_received f n rwnd now s
  step (tick now) s = check_timeouts f now s

  unfoldable pub run : List (Event F) → Sender f → Sender f
  unfolding step
  run [] s = s
  run (e ∷ es) s = run es (step e s)

  -- The messages of the events, in order, and the segments that they make.
  abbrev pub messages_of : List (Event F) → List Bytes
  messages_of [] = []
  messages_of (enqueue bytes msg now ∷ es) = bytes ∷ messages_of es
  messages_of (ack n rwnd now ∷ es) = messages_of es
  messages_of (tick now ∷ es) = messages_of es

  run-IsTruthful :
      (es : List (Event F)) (pieces : List Piece) (low : ℕ) (s : Sender f)
      → IsTruthful f pieces low s
      → IsTruthful f (pieces ++ stream_of (messages_of es)) low (run es s)
  unfolding run step
  run-IsTruthful [] pieces low s h = rw append-nil h
  run-IsTruthful (enqueue bytes msg now ∷ es) pieces low s h =
      rw (← append_assoc pieces (fragments bytes) (stream_of (messages_of es))) (
        run-IsTruthful es (pieces ++ fragments bytes) low _
          (enqueue_data-IsTruthful pieces low bytes msg now s h))
  run-IsTruthful (ack n rwnd now ∷ es) pieces low s h =
      run-IsTruthful es pieces low _ (on_ack_received-IsTruthful f pieces low n rwnd now s h)
  run-IsTruthful (tick now ∷ es) pieces low s h =
      run-IsTruthful es pieces low _ (check_timeouts-IsTruthful f pieces low now s h)

  pub init-IsTruthful : (window : ℕ) → IsTruthful f [] 0 (init f window)
  init-IsTruthful window = record {
    numbered = refl;
    room = omega arith;
    above = omega arith;
    buffered = tt;
    flying = tt;
    waiting = tt;
    wired = tt;
  }

  -- Whatever happens, every datagram on the wire is a segment of the messages that were enqueued.
  pub run-wire :
      (es : List (Event F)) (window : ℕ)
      → All (IsDatagram (stream_of (messages_of es))) (run es (init f window)).wire
  run-wire es window =
      let pieces = stream_of (messages_of es) in
      let s = run es (init f window) in
      let n = first_unsent f s.send_buffer s in
      All-imp (IsDatagram (take n pieces)) (IsDatagram pieces) s.wire
        (λ bs d.
          subst (λ l. IsDatagram l bs) (take-append-drop n pieces)
            (IsDatagram-append (take n pieces) (drop n pieces) bs d))
        (run-IsTruthful es [] 0 (init f window) (init-IsTruthful window)).wired
