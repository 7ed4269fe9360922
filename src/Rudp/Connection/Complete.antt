-- ===== src/Rudp/Connection/Complete.antt =====
-- Nothing is lost for good: when every segment of a window's worth of messages arrives, all of the
-- messages are delivered.
use rudp_agent_stack.Base.{
  ℕ, ◌≤◌, ◌<◌, ◌≡◌, refl, ap, ◌∙◌, inl, inr, List, [], ◌∷◌, ok, err, arith, length, All, Bool-cases,
  if◌then◌else◌, get_elem?-lt, take_all, subst,
}
use rudp_agent_stack.Constants.{max_rwnd}
use rudp_agent_stack.Exceptions.{Py}
use rudp_agent_stack.Bytes.{Bytes}
use rudp_agent_stack.Rudp.Packet.{RudpPacket, unpack, has_data}
use rudp_agent_stack.Rudp.Message.{Piece, piece_of, Assembly, assemble}
use rudp_agent_stack.Rudp.Receiver
use rudp_agent_stack.Rudp.Receiver.{Receiver, process_segment, process_all}
use rudp_agent_stack.Rudp.Receiver.Window.{IsOrdered}
use rudp_agent_stack.Rudp.Receiver.Stream.{Carries, process_all-delivers}
use rudp_agent_stack.Rudp.Receiver.Progress.{Below, Arrives, process_all_complete}
use rudp_agent_stack.Rudp.Float.{Float}
use rudp_agent_stack.Rudp.Sender
use rudp_agent_stack.Rudp.Sender.Stream.{unpack-IsDatagram}
use rudp_agent_stack.Rudp.Sender.Run.{Event, run, messages_of, stream_of, run-wire, assemble-stream}
use rudp_agent_stack.Rudp.Connection.{Connection, receive_datagram, receive_all}
use rudp_agent_stack.Rudp.Connection.Delivery.{
  Arrival, Allowed, Arrival-Allowed, datagram_packet, datagram_drop, packet_receiver,
}

-- The packet that one datagram hands to the receiver, if any, before the ones of the others.
abbrev pub data_before : List RudpPacket → Py RudpPacket → List RudpPacket
data_before rest (err e) = rest
data_before rest (ok p) = if has_data p then p ∷ rest else rest

init-IsOrdered : IsOrdered Receiver.init
init-IsOrdered = record { distinct = tt; inside = tt }

Carries-Below :
    (pieces : List Piece) (segments : List RudpPacket)
    → length pieces ≤ max_rwnd
    → All (Carries pieces) segments
    → Below max_rwnd segments
Carries-Below pieces [] few h = tt
Carries-Below pieces (p ∷ segments) few h = (
  omega (arith, get_elem?-lt pieces p.seq_num (piece_of p) h.0),
  Carries-Below pieces segments few h.1,
)

module _ (f : Float) where
  open f use {F}

  -- The packets with data among the arrivals.
  abbrev pub data_packets : List (Bytes × F) → List RudpPacket
  data_packets [] = []
  data_packets ((bs, now) ∷ rest) = data_before (data_packets rest) (unpack bs)

  receive_step :
      (bs : Bytes) (now : F) (c : Connection f) (rest : List RudpPacket) (r : Py RudpPacket)
      → unpack bs ≡ r
      → process_all rest (receive_datagram f bs now c).0.receiver
        ≡ process_all (data_before rest r) c.receiver
  receive_step bs now c rest (err e) refused = rw (datagram_drop f bs now c e refused) refl
  receive_step bs now c rest (ok p) read =
      rw (datagram_packet f bs now c p read, packet_receiver f p now c)
        (elim (Bool-cases (has_data p)) [
          | inl with_data ↦ rw with_data (unfold process_all in refl)
          | inr without ↦ rw without refl
        ])

  receive_all_receiver :
      (arrivals : List (Bytes × F)) (c : Connection f)
      → (receive_all f arrivals c).receiver ≡ process_all (data_packets arrivals) c.receiver
  unfolding receive_all
  receive_all_receiver [] c = unfold process_all in refl
  receive_all_receiver ((bs, now) ∷ rest) c =
      receive_all_receiver rest _ ∙ receive_step bs now c (data_packets rest) (unpack bs) refl

  data_before-Carries :
      (pieces : List Piece) (bs : Bytes) (now : F) (rest : List RudpPacket) (r : Py RudpPacket)
      → unpack bs ≡ r
      → Allowed f pieces (bs, now)
      → All (Carries pieces) rest
      → All (Carries pieces) (data_before rest r)
  data_before-Carries pieces bs now rest (err e) refused allowed h = h
  data_before-Carries pieces bs now rest (ok p) read (inl d) h =
      let (q, read', segment) = unpack-IsDatagram pieces bs d in
      let same : q ≡ p = ground (arith, read, read') in
      elim (Bool-cases (has_data p)) [
        | inl with_data ↦ rw with_data (subst (Carries pieces) same segment.carries, h)
        | inr without ↦ rw without h
      ]
  data_before-Carries pieces bs now rest (ok p) read (inr nothing) h = rw (nothing p read) h

  data_packets-Carries :
      (pieces : List Piece) (wire : List Bytes)
      (from_wire : (d : Bytes × F) → Arrival f wire d → Allowed f pieces d)
      (arrivals : List (Bytes × F))
      → All (Arrival f wire) arrivals
      → All (Carries pieces) (data_packets arrivals)
  data_packets-Carries pieces wire from_wire [] h = tt
  data_packets-Carries pieces wire from_wire ((bs, now) ∷ rest) h =
      data_before-Carries pieces bs now (data_packets rest) (unpack bs) refl
        (from_wire (bs, now) h.0) (data_packets-Carries pieces wire from_wire rest h.1)

  -- Complete delivery. When the enqueued messages make at most 64 segments, and each of these segments
  -- is at least once among the arrivals, a connection with a fresh receiver delivers all of the messages,
  -- unchanged and in order, whatever the loss of other copies, repetition and order of the arrivals.
  pub complete_delivery :
      (events : List (Event F)) (window : ℕ) (arrivals : List (Bytes × F)) (c : Connection f)
      → All (Arrival f (run f events (Sender.init f window)).wire) arrivals
      → c.receiver ≡ Receiver.init
      → length (stream_of (messages_of f events)) ≤ max_rwnd
      → ((s : ℕ)
          → s < length (stream_of (messages_of f events))
          → Arrives s (data_packets arrivals))
      → (receive_all f arrivals c).receiver.messages ≡ messages_of f events
  complete_delivery events window arrivals c arrive fresh few here =
      let pieces = stream_of (messages_of f events) in
      let wire = (run f events (Sender.init f window)).wire in
      let segments = data_packets arrivals in
      let carried =
        data_packets-Carries pieces wire (Arrival-Allowed f pieces wire (run-wire f events window))
          arrivals arrive in
      let (within, delivered, _) = process_all-delivers pieces segments carried in
      let all =
        process_all_complete segments Receiver.init (length pieces) init-IsOrdered
          (Carries-Below pieces segments few carried) (λ s _ b. here s b) in
      ap (λ (r : Receiver). r.messages)
        (receive_all_receiver arrivals c ∙ ap (process_all segments) fresh)
      ∙ delivered
      ∙ ap (λ q. (assemble q).messages) (take_all pieces _ all)
      ∙ ap (λ (a : Assembly). a.messages) (assemble-stream (messages_of f events))
