-- ===== src/Rudp/Server/Delivery.antt =====
-- Reliable delivery to a server that many peers talk to at once.
use rudp_agent_stack.Base.{
  ℕ, ◌≡◌, refl, sym, subst, true, Option, none, some, List, [], ◌∷◌, ok, err, inl, inr, take, Eq,
  Bool-cases, All,
}
use rudp_agent_stack.Base.Dict.{lookup}
use rudp_agent_stack.Exceptions.{Py}
use rudp_agent_stack.Bytes.{Bytes}
use rudp_agent_stack.Rudp.Packet.{RudpPacket, unpack}
use rudp_agent_stack.Rudp.Message.{Piece}
use rudp_agent_stack.Rudp.Receiver.Stream.{IsFaithful, init-IsFaithful}
use rudp_agent_stack.Rudp.Float.{Float}
use rudp_agent_stack.Rudp.Sender
use rudp_agent_stack.Rudp.Sender.Run.{Event, run, messages_of, stream_of, run-wire}
use rudp_agent_stack.Rudp.Connection.Delivery.{
  Arrival, Allowed, Arrival-Allowed, datagram-IsFaithful, datagram_packet, IsFaithful-prefix,
}
use rudp_agent_stack.Rudp.Server.{
  Peer, Server, Input, datagram, message, clock, serve_all, peer_of, no_connections,
}
use rudp_agent_stack.Rudp.Server.Isolation.{peer_step, read_by, serve_step}

module _ (f : Float) (A : Type 0) ⦃address : Eq A⦄ (a : A) where
  open f use {F}

  -- The datagrams from the address `a` are arrivals of the wire; from elsewhere anything may come.
  abbrev pub Arrives : List Bytes → Input f A → Type 0
  Arrives wire (datagram bs addr now) = address.beq addr a ≡ true → Arrival f wire (bs, now)
  Arrives wire (message bytes request_id addr now) = Unit
  Arrives wire (clock now) = Unit

  module _ (pieces : List Piece) (wire : List Bytes)
      (from_wire : (d : Bytes × F) → Arrival f wire d → Allowed f pieces d) where
    abbrev Faithful : Option (Peer f) → Type 0
    Faithful none = Unit
    Faithful (some peer) = IsFaithful pieces peer.connection.receiver

    peer_of-Faithful :
        (o : Option (Peer f)) (now : F)
        → Faithful o
        → IsFaithful pieces (peer_of f o now).connection.receiver
    peer_of-Faithful none now h = init-IsFaithful pieces
    peer_of-Faithful (some peer) now h = h

    read_by-Faithful :
        (bs : Bytes) (now : F) (o : Option (Peer f)) (r : Py RudpPacket)
        → unpack bs ≡ r
        → Arrival f wire (bs, now)
        → Faithful o
        → Faithful (read_by f A a o now r)
    read_by-Faithful bs now o (err e) refused arrive h = h
    read_by-Faithful bs now o (ok p) read arrive h =
        let c = (peer_of f o now).connection in
        subst (λ q. IsFaithful pieces q.0.receiver) (datagram_packet f bs now c p read)
          (datagram-IsFaithful f pieces bs now c (from_wire (bs, now) arrive)
            (peer_of-Faithful o now h))

    peer_step-Faithful :
        (i : Input f A) (o : Option (Peer f))
        → Arrives wire i
        → Faithful o
        → Faithful (peer_step f A a i o)
    peer_step-Faithful (datagram bs addr now) o arrive h = elim (Bool-cases (address.beq addr a)) [
      | inl mine ↦ rw mine (read_by-Faithful bs now o (unpack bs) refl (arrive mine) h)
      | inr other ↦ rw other h
    ]
    peer_step-Faithful (message bytes request_id addr now) o arrive h =
        elim (Bool-cases (address.beq addr a)) [
          | inl mine ↦ rw mine (peer_of-Faithful o now h)
          | inr other ↦ rw other h
        ]
    peer_step-Faithful (clock now) none arrive h = h
    peer_step-Faithful (clock now) (some peer) arrive h = h

    serve_all-Faithful :
        (inputs : List (Input f A)) (s : Server f A)
        → All (Arrives wire) inputs
        → Faithful (lookup a s.connections)
        → Faithful (lookup a (serve_all f A inputs s).connections)
    unfolding serve_all
    serve_all-Faithful [] s arrive h = h
    serve_all-Faithful (i ∷ rest) s arrive h = serve_all-Faithful rest _ arrive.1 (
        subst Faithful (sym (serve_step f A a i s))
          (peer_step-Faithful i (lookup a s.connections) arrive.0 h))

  -- A server without connections gets any inputs. If the datagrams from one address are arrivals of what
  -- a sender sent, the messages that the server delivers from that address are the first ones that were
  -- enqueued there, unchanged, each once and in order, whatever the other peers send.
  pub server_delivery :
      (events : List (Event F)) (window : ℕ) (inputs : List (Input f A)) (peer : Peer f)
      → All (Arrives (run f events (Sender.init f window)).wire) inputs
      → lookup a (serve_all f A inputs (no_connections f A)).connections ≡ some peer
      → (k : ℕ) × (peer.connection.receiver.messages ≡ take k (messages_of f events))
  server_delivery events window inputs peer arrive found =
      let pieces = stream_of (messages_of f events) in
      let wire = (run f events (Sender.init f window)).wire in
      let from_wire = Arrival-Allowed f pieces wire (run-wire f events window) in
      IsFaithful-prefix (messages_of f events) peer.connection.receiver (
        subst (Faithful pieces wire from_wire) found (
          serve_all-Faithful pieces wire from_wire inputs (no_connections f A) arrive
            (unfold lookup in tt)))
