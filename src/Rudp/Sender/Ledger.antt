-- ===== src/Rudp/Sender/Ledger.antt =====
-- The sender's bookkeeping: which packets are in flight, and how many bytes.
use rudp_agent_stack.Base.{
  ℕ, suc, ◌+◌, ◌-◌, ◌≤◌, ◌<◌, ◌≡◌, refl, sym, ap, subst, true, false, inl, inr, none, some, List,
  [], ◌∷◌, ◌++◌, ok, err, arith, length, Option-cases, nat_eq,
}
use rudp_agent_stack.Base.Dict.{
  Dict, lookup, insert, remove, contains, IsDistinct, Entries, lookup-insert, insert-IsDistinct,
  Entries-insert, Entries-lookup, remove_absent,
}
use rudp_agent_stack.Exceptions.{Py}
use rudp_agent_stack.Bytes.{Bytes}
use rudp_agent_stack.Rudp.Packet.{RudpPacket, pack}
use rudp_agent_stack.Rudp.Float.{Float}
use rudp_agent_stack.Rudp.Sender.{Flight, Sender, init, launch, try_send, transmit}
use rudp_agent_stack.Rudp.Sender.Rules.{sending, try_send_rule}

-- The sequence numbers of the buffer go up by one.
abbrev pub Consecutive : ℕ → List RudpPacket → Type 0
Consecutive n [] = Unit
Consecutive n (p ∷ rest) = (p.seq_num ≡ n) × Consecutive (suc n) rest

pub Consecutive-append :
    (n m : ℕ) (buffer : List RudpPacket) (p : RudpPacket)
    → Consecutive n buffer
    → n + length buffer ≡ m
    → p.seq_num ≡ m
    → Consecutive n (buffer ++ p ∷ [])
Consecutive-append n m [] p h e k = (omega arith, tt)
Consecutive-append n m (q ∷ rest) p h e k =
    (h.0, Consecutive-append (suc n) m rest p h.1 (omega arith) k)

-- `pack` changes the checksum field alone.
pack_keeps :
    (p : RudpPacket) (bs : Bytes) (q : RudpPacket)
    → pack p ≡ ok (bs, q)
    → q ≡ record p { checksum = q.checksum }
unfolding pack
pack_keeps p bs q e = ground arith

pub transmit_keeps :
    (p : RudpPacket) (wire : List Bytes)
    → (transmit p wire).0 ≡ record p { checksum = (transmit p wire).0.checksum }
unfolding transmit
transmit_keeps p wire = go (pack p) refl
  where
    go :
        (r : Py (Bytes × RudpPacket))
        → pack p ≡ r
        → (transmit p wire).0 ≡ record p { checksum = (transmit p wire).0.checksum }
    go (ok (bs, q)) e = rw (e, transmit) (pack_keeps p bs q e)
    go (err x) e = rw (e, transmit) refl

pub transmit-seq_num :
    (p : RudpPacket) (wire : List Bytes) → (transmit p wire).0.seq_num ≡ p.seq_num
transmit-seq_num p wire = ap (λ (q : RudpPacket). q.seq_num) (transmit_keeps p wire)

pub transmit-payload :
    (p : RudpPacket) (wire : List Bytes) → (transmit p wire).0.payload ≡ p.payload
transmit-payload p wire = ap (λ (q : RudpPacket). q.payload) (transmit_keeps p wire)

module _ (f : Float) where
  open f use {F}

  -- The payload bytes of the packets in flight.
  abbrev pub total : Dict ℕ (Flight f) → ℕ
  total [] = 0
  total ((k, info) ∷ d) = length (info.packet.payload) + total d

  total-insert :
      (k : ℕ) (info : Flight f) (d : Dict ℕ (Flight f))
      → lookup k d ≡ none
      → total (insert k info d) ≡ total d + length (info.packet.payload)
  unfolding lookup insert
  total-insert k info [] h = omega arith
  total-insert k info ((j, w) ∷ d) h = ground (arith, total-insert k info d)

  pub total-insert_again :
      (k : ℕ) (old info : Flight f) (d : Dict ℕ (Flight f))
      → lookup k d ≡ some old
      → length (info.packet.payload) ≡ length (old.packet.payload)
      → total (insert k info d) ≡ total d
  unfolding lookup insert
  total-insert_again k old info [] h e = absurd (ground arith)
  total-insert_again k old info ((j, w) ∷ d) h e = ground (arith, total-insert_again k old info d)

  pub total-remove :
      (k : ℕ) (info : Flight f) (d : Dict ℕ (Flight f))
      → IsDistinct d
      → lookup k d ≡ some info
      → total (remove k d) + length (info.packet.payload) ≡ total d
  unfolding lookup remove
  total-remove k info [] u h = absurd (ground arith)
  total-remove k info ((j, w) ∷ d) u h =
      ground (arith, total-remove k info d u.1, remove_absent k d, u.0)

  -- The number of the first packet that was not sent yet.
  abbrev pub first_unsent : List RudpPacket → Sender f → ℕ
  first_unsent buffer s = s.next_seq - length buffer

  -- In flight are exactly the packets from `base` up to the first unsent one, each under its own
  -- number, and `inflight_bytes` is the number of their payload bytes; behind them the buffer goes on.
  pub record Books (buffer : List RudpPacket) (base next_seq inflight_bytes : ℕ)
      (unacked_packets : Dict ℕ (Flight f)) : Type 0 where
    pub distinct : IsDistinct unacked_packets
    pub keyed :
        Entries
          (λ k (info : Flight f).
            (base ≤ k) × (k < next_seq - length buffer) × (info.packet.seq_num ≡ k))
          unacked_packets
    pub complete :
        (k : ℕ) → base ≤ k → k < next_seq - length buffer → contains k unacked_packets ≡ true
    pub counted : inflight_bytes ≡ total unacked_packets
    pub behind : base ≤ next_seq - length buffer
    pub buffered : Consecutive (next_seq - length buffer) buffer
    pub room : length buffer ≤ next_seq

  abbrev pub Ledger : List RudpPacket → Sender f → Type 0
  Ledger buffer s = Books buffer s.base s.next_seq s.inflight_bytes s.unacked_packets

  abbrev pub IsSound : Sender f → Type 0
  IsSound s = Ledger s.send_buffer s

  pub init-IsSound : (w : ℕ) → IsSound (init f w)
  init-IsSound w = record {
    distinct = tt;
    keyed = tt;
    complete = λ k a b. absurd (omega arith);
    counted = refl;
    behind = omega arith;
    buffered = tt;
    room = omega arith;
  }

  pub Keyed_wider :
      (lo hi lo' hi' : ℕ) (d : Dict ℕ (Flight f))
      → lo' ≤ lo
      → hi ≤ hi'
      → Entries (λ k (info : Flight f). (lo ≤ k) × (k < hi) × (info.packet.seq_num ≡ k)) d
      → Entries (λ k (info : Flight f). (lo' ≤ k) × (k < hi') × (info.packet.seq_num ≡ k)) d
  Keyed_wider lo hi lo' hi' [] a b h = tt
  Keyed_wider lo hi lo' hi' ((k, v) ∷ d) a b h =
      ((omega arith, omega arith, h.0.2), Keyed_wider lo hi lo' hi' d a b h.1)

  not_in_flight :
      (p : RudpPacket) (rest : List RudpPacket) (s : Sender f)
      → Ledger (p ∷ rest) s
      → lookup p.seq_num s.unacked_packets ≡ none
  not_in_flight p rest s h = elim (Option-cases (lookup p.seq_num s.unacked_packets)) [
    | inl absent ↦ absent
    | inr (info, present) ↦ absurd (
        omega (
          arith,
          Entries-lookup
              (λ k (info : Flight f).
                (s.base ≤ k) × (k < first_unsent (p ∷ rest) s) × (info.packet.seq_num ≡ k))
              p.seq_num info s.unacked_packets h.keyed present,
        ))
  ]

  sending-Ledger :
      (now : F) (p : RudpPacket) (rest : List RudpPacket) (s : Sender f)
      → Ledger (p ∷ rest) s
      → Ledger rest (sending f p rest now s)
  unfolding launch
  sending-Ledger now p rest s h =
      let q = (transmit p s.wire).0 in
      let absent = not_in_flight p rest s h in
      let next : first_unsent rest s ≡ suc (first_unsent (p ∷ rest) s) = omega (arith, h.room) in
      record {
        distinct = insert-IsDistinct p.seq_num _ s.unacked_packets h.distinct;
        keyed =
            Entries-insert
              (λ k (info : Flight f).
                (s.base ≤ k) × (k < first_unsent rest s) × (info.packet.seq_num ≡ k))
              p.seq_num _ s.unacked_packets
              (
                omega (arith, h.behind, h.buffered.0),
                omega (arith, h.buffered.0),
                transmit-seq_num p s.wire,
              )
              (Keyed_wider s.base (first_unsent (p ∷ rest) s) _ _ s.unacked_packets (omega arith)
                (omega arith) h.keyed);
        complete = λ k a b. ground (
          arith,
          lookup-insert p.seq_num k
              (record { packet = q; sent_time = now; is_retransmitted = false }) s.unacked_packets,
          h.complete k,
          h.buffered.0,
        );
        counted = omega (
          arith,
          total-insert p.seq_num (record { packet = q; sent_time = now; is_retransmitted = false })
              s.unacked_packets absent,
          ap (λ (b : Bytes). length b) (transmit-payload p s.wire),
        );
        behind = omega (arith, h.behind);
        buffered = subst (λ n. Consecutive n rest) (sym next) h.buffered.1;
        room = omega (arith, h.room);
      }

  pub try_send-IsSound : (now : F) (s : Sender f) → IsSound s → IsSound (try_send f now s)
  try_send-IsSound now s h =
      try_send_rule f Ledger now (λ buffer q w k. k) (λ p rest q _ k. sending-Ledger now p rest q k)
        s h
