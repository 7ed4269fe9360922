-- ===== src/Rudp/Server/Isolation.antt =====
-- The peers of a server do not see each other.
use rudp_agent_stack.Base.{
  ◌≡◌, refl, sym, ap, ◌∙◌, Bool, true, false, Option, none, some, List, [], ◌∷◌, ok, err, inl, inr,
  if◌then◌else◌, Eq, Bool-cases, arith,
}
use rudp_agent_stack.Base.Dict.{Dict, lookup, insert, lookup-insert}
use rudp_agent_stack.Exceptions.{Py}
use rudp_agent_stack.Bytes.{Bytes}
use rudp_agent_stack.Rudp.Packet.{RudpPacket, unpack}
use rudp_agent_stack.Rudp.Float.{Float}
use rudp_agent_stack.Rudp.Server.{
  Peer, Server, Input, datagram, message, clock, serve, serve_all, peer_of, handle_packet, send_to,
  tick_peer, tick_all, tick_connections, handle_datagram, send,
}

module _ (f : Float) (A : Type 0) ⦃address : Eq A⦄ (a : A) where
  open f use {F}

  -- Whether an input is for the peer at `a`; the clock is for all of them.
  abbrev pub concerns : Input f A → Bool
  concerns (datagram bs addr now) = address.beq addr a
  concerns (message bytes request_id addr now) = address.beq addr a
  concerns (clock now) = true

  abbrev pub concerning : List (Input f A) → List (Input f A)
  concerning [] = []
  concerning (i ∷ rest) = if concerns i then i ∷ concerning rest else concerning rest

  -- What one input does to the peer at `a`.
  abbrev pub read_by : Option (Peer f) → F → Py RudpPacket → Option (Peer f)
  read_by o now (err e) = o
  read_by o now (ok p) = some (handle_packet f p now (peer_of f o now)).0

  abbrev pub ticked : F → Option (Peer f) → Option (Peer f)
  ticked now none = none
  ticked now (some peer) = some (tick_peer f now peer)

  abbrev pub peer_step : Input f A → Option (Peer f) → Option (Peer f)
  peer_step (datagram bs addr now) o = if address.beq addr a then read_by o now (unpack bs) else o
  peer_step (message bytes request_id addr now) o =
      if address.beq addr a then some (send_to f bytes request_id now (peer_of f o now)) else o
  peer_step (clock now) o = ticked now o

  lookup-tick_all :
      (now : F) (d : Dict A (Peer f)) → lookup a (tick_all f A now d) ≡ ticked now (lookup a d)
  unfolding lookup tick_all
  lookup-tick_all now [] = refl
  lookup-tick_all now ((b, peer) ∷ d) = elim (Bool-cases (address.beq b a)) [
    | inl same ↦ rw same refl
    | inr other ↦ rw other (lookup-tick_all now d)
  ]

  lookup-insert_at :
      (b : A) (peer : Peer f) (d : Dict A (Peer f)) (o : Option (Peer f))
      → (address.beq b a ≡ true → some peer ≡ o)
      → (address.beq b a ≡ false → lookup a d ≡ o)
      → lookup a (insert b peer d) ≡ o
  lookup-insert_at b peer d o same other =
      lookup-insert b a peer d
      ∙ elim (Bool-cases (address.beq b a)) [ inl e ↦ rw e (same e) | inr e ↦ rw e (other e) ]

  datagram_step :
      (bs : Bytes) (addr : A) (now : F) (s : Server f A) (r : Py RudpPacket)
      → unpack bs ≡ r
      → lookup a (handle_datagram f A bs addr now s).0.connections ≡ (
          if address.beq addr a
          then read_by (lookup a s.connections) now r
          else lookup a s.connections)
  unfolding handle_datagram
  datagram_step bs addr now s (err e) refused =
      rw (refused, handle_datagram)
        (elim (Bool-cases (address.beq addr a)) [ inl e ↦ rw e refl | inr e ↦ rw e refl ])
  datagram_step bs addr now s (ok p) read =
      rw (read, handle_datagram)
        (lookup-insert_at addr _ s.connections _ (λ e. rw (e, (address.beq_iff addr a).0 e) refl)
          (λ e. rw e refl))

  pub serve_step :
      (i : Input f A) (s : Server f A)
      → lookup a (serve f A i s).connections ≡ peer_step i (lookup a s.connections)
  unfolding serve send tick_connections
  serve_step (datagram bs addr now) s = datagram_step bs addr now s (unpack bs) refl
  serve_step (message bytes request_id addr now) s =
      lookup-insert_at addr _ s.connections _ (λ e. rw (e, (address.beq_iff addr a).0 e) refl)
        (λ e. rw e refl)
  serve_step (clock now) s = lookup-tick_all now s.connections

  peer_step_other : (i : Input f A) (o : Option (Peer f)) → concerns i ≡ false → peer_step i o ≡ o
  peer_step_other (datagram bs addr now) o e = rw e refl
  peer_step_other (message bytes request_id addr now) o e = rw e refl
  peer_step_other (clock now) o e = absurd (ground arith)

  -- The state of the connection to an address is what the datagrams from it, the messages to it and the
  -- ticks make of it: leaving out what concerns the other peers alone changes nothing.
  pub serve_all-concerning :
      (inputs : List (Input f A)) (s t : Server f A)
      → lookup a s.connections ≡ lookup a t.connections
      → lookup a (serve_all f A inputs s).connections
        ≡ lookup a (serve_all f A (concerning inputs) t).connections
  unfolding serve_all
  serve_all-concerning [] s t h = h
  serve_all-concerning (i ∷ rest) s t h = elim (Bool-cases (concerns i)) [
    | inl mine ↦
        rw mine (
          serve_all-concerning rest _ _
            (serve_step i s ∙ ap (peer_step i) h ∙ sym (serve_step i t)))
    | inr not_mine ↦ rw not_mine (
        serve_all-concerning rest _ t
          (serve_step i s ∙ peer_step_other i (lookup a s.connections) not_mine ∙ h))
  ]
