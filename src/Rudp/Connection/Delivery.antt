-- ===== src/Rudp/Connection/Delivery.antt =====
-- End to end: what a connection delivers, against what the sender at the other end was given.
use rudp_agent_stack.Base.{
  ℕ, ◌≡◌, false, refl, sym, ap, ◌∙◌, ◌⊎◌, inl, inr, List, [], ◌∷◌, ◌++◌, ok, err, if◌then◌else◌,
  arith, length, take, drop, take-append-drop, take_prefix, All, Member, All-Member, All-imp,
  Bool-cases, append-nil, append_assoc,
}
use rudp_agent_stack.Exceptions.{Py, Exception}
use rudp_agent_stack.Bytes.{Bytes}
use rudp_agent_stack.Rudp.Packet.{RudpPacket, has_data, unpack}
use rudp_agent_stack.Rudp.Message.{
  Piece, Assembly, extend, assemble, assemble_from, assemble-append,
}
use rudp_agent_stack.Rudp.Receiver
use rudp_agent_stack.Rudp.Receiver.{Receiver, process_segment, process_all}
use rudp_agent_stack.Rudp.Receiver.Stream.{IsFaithful, process_segment-IsFaithful, init-IsFaithful}
use rudp_agent_stack.Rudp.Float.{Float}
use rudp_agent_stack.Rudp.Sender
use rudp_agent_stack.Rudp.Sender.{Sender}
use rudp_agent_stack.Rudp.Sender.Stream.{IsDatagram, unpack-IsDatagram}
use rudp_agent_stack.Rudp.Sender.Run.{Event, run, messages_of, stream_of, run-wire, assemble-stream}
use rudp_agent_stack.Rudp.Connection.{
  Connection, acknowledge, on_packet_received, receive_datagram, receive_all,
}

extend_grows :
    (a : Assembly) (p : Piece) → (more : List Bytes) × ((extend a p).messages ≡ a.messages ++ more)
extend_grows a p = elim (Bool-cases p.fin) [
  | inl fin ↦ ((a.pending ++ p.bytes) ∷ [], rw fin refl)
  | inr open_ ↦ ([], rw open_ (sym (append-nil a.messages)))
]

messages_grow :
    (ps : List Piece) (a : Assembly)
    → (more : List Bytes) × ((assemble_from a ps).messages ≡ a.messages ++ more)
unfolding assemble_from
messages_grow [] a = ([], sym (append-nil a.messages))
messages_grow (p ∷ ps) a =
    let (more, e) = messages_grow ps (extend a p) in
    let (first, e1) = extend_grows a p in
    (first ++ more, e ∙ ap (λ l. l ++ more) e1 ∙ append_assoc a.messages first more)

-- The messages of a prefix of a stream are a prefix of its messages.
pub messages_prefix :
    (n : ℕ) (ps : List Piece)
    → (k : ℕ) × ((assemble (take n ps)).messages ≡ take k (assemble ps).messages)
messages_prefix n ps =
    let (more, e) = messages_grow (drop n ps) (assemble (take n ps)) in
    let whole : (assemble ps).messages ≡ (assemble (take n ps)).messages ++ more =
      ap (λ q. (assemble q).messages) (sym (take-append-drop n ps))
      ∙ ap (λ (a : Assembly). a.messages) (assemble-append (take n ps) (drop n ps))
      ∙ e in
    (
      length (assemble (take n ps)).messages,
      rw whole (sym (take_prefix (assemble (take n ps)).messages more)),
    )

-- What a receiver that is faithful to some messages delivers.
pub IsFaithful-prefix :
    (ms : List Bytes) (r : Receiver)
    → IsFaithful (stream_of ms) r
    → (k : ℕ) × (r.messages ≡ take k ms)
IsFaithful-prefix ms r faithful =
    let (k, prefix) = messages_prefix r.expected_seq (stream_of ms) in
    (k, faithful.delivered ∙ prefix ∙ ap (λ (a : Assembly). take k a.messages) (assemble-stream ms))

-- Bytes that `unpack` refuses, or a packet without data such as an acknowledgment.
abbrev pub CarriesNothing : Bytes → Type 0
CarriesNothing bs = (p : RudpPacket) → unpack bs ≡ ok p → has_data p ≡ false

module _ (f : Float) where
  open f use {F}

  -- What the network may hand over: a datagram of the sender, as often and in whatever order, or bytes
  -- that carry no data.
  abbrev pub Arrival : List Bytes → Bytes × F → Type 0
  Arrival wire (bs, now) = Member bs wire ⊎ CarriesNothing bs

  acknowledge_receiver :
      (p : RudpPacket) (now : F) (c : Connection f) → (acknowledge f p now c).receiver ≡ c.receiver
  unfolding acknowledge
  acknowledge_receiver p now c = ground arith

  pub packet_receiver :
      (p : RudpPacket) (now : F) (c : Connection f)
      → (on_packet_received f p now c).0.receiver
        ≡ (if has_data p then (process_segment p c.receiver).0 else c.receiver)
  unfolding on_packet_received
  packet_receiver p now c = elim (Bool-cases (has_data p)) [
    | inl d ↦ rw d (ap (λ r. (process_segment p r).0) (acknowledge_receiver p now c))
    | inr n ↦ rw n (acknowledge_receiver p now c)
  ]

  pub datagram_packet :
      (bs : Bytes) (now : F) (c : Connection f) (p : RudpPacket)
      → unpack bs ≡ ok p
      → (receive_datagram f bs now c) ≡ on_packet_received f p now c
  unfolding receive_datagram
  datagram_packet bs now c p h = rw (h, receive_datagram) refl

  pub datagram_drop :
      (bs : Bytes) (now : F) (c : Connection f) (e : Exception)
      → unpack bs ≡ err e
      → (receive_datagram f bs now c) ≡ (c, ok [])
  unfolding receive_datagram
  datagram_drop bs now c e h = rw (h, receive_datagram) refl

  module _ (pieces : List Piece) where
    pub datagram-IsFaithful :
        (bs : Bytes) (now : F) (c : Connection f)
        → IsDatagram pieces bs ⊎ CarriesNothing bs
        → IsFaithful pieces c.receiver
        → IsFaithful pieces (receive_datagram f bs now c).0.receiver
    datagram-IsFaithful bs now c (inr nothing) h = go (unpack bs) refl
      where
        go :
            (r : Py RudpPacket)
            → unpack bs ≡ r
            → IsFaithful pieces (receive_datagram f bs now c).0.receiver
        go (err e) refused = rw (datagram_drop bs now c e refused) h
        go (ok p) read =
            rw (datagram_packet bs now c p read, packet_receiver p now c, nothing p read) h
    datagram-IsFaithful bs now c (inl d) h =
        let (p, read, segment) = unpack-IsDatagram pieces bs d in
        rw (datagram_packet bs now c p read, packet_receiver p now c)
          (elim (Bool-cases (has_data p)) [
            | inl with_data ↦
                rw with_data (process_segment-IsFaithful pieces c.receiver p segment.carries h)
            | inr without ↦ rw without h
          ])

    abbrev pub Allowed : Bytes × F → Type 0
    Allowed (bs, now) = IsDatagram pieces bs ⊎ CarriesNothing bs

    receive_all-IsFaithful :
        (arrivals : List (Bytes × F)) (c : Connection f)
        → All Allowed arrivals
        → IsFaithful pieces c.receiver
        → IsFaithful pieces (receive_all f arrivals c).receiver
    unfolding receive_all
    receive_all-IsFaithful [] c ok_ h = h
    receive_all-IsFaithful ((bs, now) ∷ rest) c ok_ h =
        receive_all-IsFaithful rest _ ok_.1 (datagram-IsFaithful bs now c ok_.0 h)

  pub Arrival-Allowed :
      (pieces : List Piece) (wire : List Bytes)
      → All (IsDatagram pieces) wire
      → (a : Bytes × F) → Arrival wire a
      → Allowed pieces a
  Arrival-Allowed pieces wire h (bs, now) (inl m) = inl (All-Member (IsDatagram pieces) bs wire h m)
  Arrival-Allowed pieces wire h (bs, now) (inr e) = inr e

  -- Reliable delivery. A sender goes through any events, and a connection with a fresh receiver is
  -- handed any arrivals: datagrams of that sender, lost, repeated and reordered at will, packets without
  -- data, and bytes that do not unpack. The messages that the connection delivers are the first ones that were enqueued, unchanged,
  -- each once and in order.
  pub reliable_delivery :
      (events : List (Event F)) (window : ℕ) (arrivals : List (Bytes × F)) (c : Connection f)
      → All (Arrival (run f events (Sender.init f window)).wire) arrivals
      → c.receiver ≡ Receiver.init
      → let delivered = (receive_all f arrivals c).receiver.messages in
        (k : ℕ) × (delivered ≡ take k (messages_of f events))
  reliable_delivery events window arrivals c arrive fresh =
      let pieces = stream_of (messages_of f events) in
      let wire = (run f events (Sender.init f window)).wire in
      let allowed =
        All-imp (Arrival wire) (Allowed pieces) arrivals
          (Arrival-Allowed pieces wire (run-wire f events window)) arrive in
      IsFaithful-prefix (messages_of f events) _
        (receive_all-IsFaithful pieces arrivals c allowed (rw fresh (init-IsFaithful pieces)))
