-- ===== src/Rudp/Sender/Acks.antt =====
-- Acknowledgments keep the sender's books, and the timer always has a packet to send again.
use rudp_agent_stack.Base.{
  ℕ, ◌-◌, ◌≤◌, ◌<◌, ◌≡◌, refl, sym, subst, true, inl, inr, none, some, [], ◌∷◌, arith, length,
  Option-cases, nat_eq,
}
use rudp_agent_stack.Base.Dict.{Dict, lookup, contains, IsDistinct, Entries, Entries-lookup}
use rudp_agent_stack.Rudp.Float.{Float}
use rudp_agent_stack.Rudp.Sender.{Flight, Sender}
use rudp_agent_stack.Rudp.Sender.Acknowledge.{
  sample_rtt, forget_all, keys_below, grow, new_ack, duplicate_ack, on_ack_received,
}
use rudp_agent_stack.Rudp.Sender.Sound.{resend-IsSound}
use rudp_agent_stack.Rudp.Sender.Rules.{
  sample_rtt_rule, grow_rule, entered, inflated, duplicate_ack_rule, on_ack_received_rule,
}
use rudp_agent_stack.Rudp.Sender.Forget.{
  from_on, forget_unacked_below, forget_counted, forget_all_rule, lookup-from_on,
  from_on-IsDistinct,
}
use rudp_agent_stack.Rudp.Sender.Ledger.{IsSound, first_unsent, try_send-IsSound}

module _ (f : Float) where
  open f use {F, le, sub, mul, decimal, of_nat}

  abbrev Owned : ℕ → ℕ → Dict ℕ (Flight f) → Type 0
  Owned lo hi = Entries (λ k (info : Flight f). (lo ≤ k) × (k < hi) × (info.packet.seq_num ≡ k))

  from_on-Owned :
      (ack lo hi : ℕ) (d : Dict ℕ (Flight f)) → Owned lo hi d → Owned ack hi (from_on f ack d)
  from_on-Owned ack lo hi [] h = tt
  from_on-Owned ack lo hi ((k, info) ∷ d) h = ground (arith, from_on-Owned ack lo hi d h.1)

  abbrev kept : ℕ → Sender f → Sender f
  kept ack q = forget_all f (keys_below f ack q.unacked_packets) q

  kept_shape :
      (ack : ℕ) (q : Sender f)
      → kept ack q ≡ record q {
        inflight_bytes = (kept ack q).inflight_bytes;
        unacked_packets = (kept ack q).unacked_packets;
      }
  kept_shape ack q =
      forget_all_rule f
        (λ r.
          r ≡ record q { inflight_bytes = r.inflight_bytes; unacked_packets = r.unacked_packets })
        (keys_below f ack q.unacked_packets) q (λ n d. refl)

  -- `q` is `s` with `base` moved up to `ack`.
  kept-IsSound :
      (ack old : ℕ) (q : Sender f)
      → old ≤ ack
      → ack ≤ first_unsent f q.send_buffer q
      → q.base ≡ ack
      → IsSound f (record q { base = old })
      → IsSound f (kept ack q)
  kept-IsSound ack old q up sent e h =
      let d = (kept ack q).unacked_packets in
      let known : d ≡ from_on f ack q.unacked_packets = forget_unacked_below f ack q h.distinct in
      subst (IsSound f) (sym (kept_shape ack q)) (record {
        distinct =
            subst IsDistinct (sym known) (from_on-IsDistinct f ack q.unacked_packets h.distinct);
        keyed = rw (known, e) (from_on-Owned ack old _ q.unacked_packets h.keyed);
        complete = λ k a b.
            rw (known, lookup-from_on f ack k q.unacked_packets) (ground (arith, h.complete k));
        counted = forget_counted f (keys_below f ack q.unacked_packets) q h.distinct h.counted;
        behind = omega arith;
        buffered = h.buffered;
        room = h.room;
      })

  -- What an acknowledgment may say: at most that all packets that were sent have arrived.
  abbrev IsHonest : ℕ → Sender f → Type 0
  IsHonest ack s = ack ≤ first_unsent f s.send_buffer s

  new_ack-IsSound :
      (ack : ℕ) (now : F) (s : Sender f)
      → s.base < ack
      → IsHonest ack s
      → IsSound f s
      → IsSound f (new_ack f ack now s)
  unfolding new_ack
  new_ack-IsSound ack now s up sent h =
      let s1 : Sender f = record s { base = ack; dup_ack_count = 0; last_ack_received = ack } in
      let s2 = sample_rtt f (lookup (ack - 1) s1.unacked_packets) now s1 in
      let s3 = forget_all f (keys_below f ack s1.unacked_packets) s2 in
      let after : IsSound f s3 =
        sample_rtt_rule f (λ q. IsSound f (forget_all f (keys_below f ack s1.unacked_packets) q))
          (lookup (ack - 1) s1.unacked_packets) now s1
          (kept-IsSound ack s.base s1 (omega arith) sent refl h)
          (λ a b c.
            kept-IsSound ack s.base (record s1 { srtt = a; rttvar = b; rto = c }) (omega arith) sent
              refl h) in
      try_send-IsSound f now (grow f s3.cc_state s3)
        (grow_rule f (IsSound f) s3.cc_state s3 (λ w c. after))

  duplicate_ack-IsSound : (now : F) (s : Sender f) → IsSound f s → IsSound f (duplicate_ack f now s)
  duplicate_ack-IsSound now s h =
      duplicate_ack_rule f (IsSound f) now s
        (resend-IsSound f now (entered f s) (lookup s.base s.unacked_packets) refl h)
        (try_send-IsSound f now (inflated f s) h) h

  -- An acknowledgment of no more than was sent, be it new, duplicate or old, leaves a sound sender
  -- sound: in flight are exactly the packets from `base` up to the first unsent one, `inflight_bytes`
  -- counts their payload, and the send buffer goes on from there.
  pub on_ack_received-IsSound :
      (ack rwnd : ℕ) (now : F) (s : Sender f)
      → IsHonest ack s
      → IsSound f s
      → IsSound f (on_ack_received f ack rwnd now s)
  on_ack_received-IsSound ack rwnd now s honest h =
      let s1 : Sender f = record s { peer_rwnd = rwnd } in
      on_ack_received_rule f (IsSound f) now ack rwnd s
        (λ up. new_ack-IsSound ack now s1 (ground arith) honest h) (duplicate_ack-IsSound now s1 h)
        h

  some_range : (lo hi : ℕ) (d : Dict ℕ (Flight f)) → Owned lo hi d → 0 < length d → lo < hi
  some_range lo hi [] h n = absurd (omega arith)
  some_range lo hi ((k, info) ∷ d) h n = omega arith

  -- While a sound sender has anything in flight, the packet at `base` is in flight: the timer has a
  -- packet to send again.
  pub oldest_in_flight :
      (s : Sender f)
      → IsSound f s
      → 0 < length s.unacked_packets
      → (info : Flight f) × (lookup s.base s.unacked_packets ≡ some info)
        × (info.packet.seq_num ≡ s.base)
  oldest_in_flight s h some_left = elim (Option-cases (lookup s.base s.unacked_packets)) [
    | inl absent ↦ absurd (
        missing
          (h.complete s.base (omega arith)
            (some_range s.base _ s.unacked_packets h.keyed some_left))
          absent)
    | inr (info, present) ↦ (
      info,
      present,
      (Entries-lookup
          (λ k (info : Flight f).
            (s.base ≤ k) × (k < first_unsent f s.send_buffer s) × (info.packet.seq_num ≡ k))
          s.base info s.unacked_packets h.keyed present).2,
    )
  ]
    where
      missing :
          contains s.base s.unacked_packets ≡ true → lookup s.base s.unacked_packets ≡ none → ⊥
      missing there absent = ground arith
