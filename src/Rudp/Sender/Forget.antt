-- ===== src/Rudp/Sender/Forget.antt =====
-- A new acknowledgment takes exactly the packets below it out of flight.
use rudp_agent_stack.Base.{
  ℕ, ◌≤◌, ◌<◌, ◌≡◌, refl, sym, ap, ◌∙◌, subst, false, inl, inr, none, List, [], ◌∷◌, arith, ltb,
  if◌then◌else◌, Bool-cases, Option-cases, nat_eq, ◌==◌, All,
}
use rudp_agent_stack.Base.Dict.{Dict, lookup, remove, IsDistinct, remove-IsDistinct, remove_absent}
use rudp_agent_stack.Rudp.Float.{Float}
use rudp_agent_stack.Rudp.Sender.{Flight, Sender}
use rudp_agent_stack.Rudp.Sender.Acknowledge.{keys_below, forget, forget_all}
use rudp_agent_stack.Rudp.Sender.Ledger.{total, total-remove}

module _ (f : Float) where
  -- What stays in flight.
  abbrev pub from_on : ℕ → Dict ℕ (Flight f) → Dict ℕ (Flight f)
  from_on ack [] = []
  from_on ack ((k, info) ∷ d) = if ltb k ack then from_on ack d else (k, info) ∷ from_on ack d

  abbrev remove_all : List ℕ → Dict ℕ (Flight f) → Dict ℕ (Flight f)
  remove_all [] d = d
  remove_all (k ∷ ks) d = remove_all ks (remove k d)

  keys_below-lt : (ack : ℕ) (d : Dict ℕ (Flight f)) → All (λ k. k < ack) (keys_below f ack d)
  unfolding keys_below
  keys_below-lt ack [] = tt
  keys_below-lt ack ((k, info) ∷ d) = ground (arith, keys_below-lt ack d)

  remove_all_past :
      (ack k : ℕ) (info : Flight f) (ks : List ℕ) (d : Dict ℕ (Flight f))
      → ack ≤ k
      → All (λ j. j < ack) ks
      → remove_all ks ((k, info) ∷ d) ≡ (k, info) ∷ remove_all ks d
  unfolding remove
  remove_all_past ack k info [] d a h = refl
  remove_all_past ack k info (j ∷ ks) d a h =
      let other : (k == j) ≡ false = ground arith in
      rw other (remove_all_past ack k info ks (remove j d) a h.1)

  remove_head :
      (k : ℕ) (info : Flight f) (d : Dict ℕ (Flight f)) → remove k ((k, info) ∷ d) ≡ remove k d
  unfolding remove
  remove_head k info d = ground arith

  remove_all-keys_below :
      (ack : ℕ) (d : Dict ℕ (Flight f))
      → IsDistinct d
      → remove_all (keys_below f ack d) d ≡ from_on ack d
  unfolding keys_below
  remove_all-keys_below ack [] h = refl
  remove_all-keys_below ack ((k, info) ∷ d) h = elim (Bool-cases (ltb k ack)) [
    | inl below ↦ rw below (
        ap (remove_all (keys_below f ack d)) (remove_head k info d ∙ remove_absent k d h.0)
        ∙ remove_all-keys_below ack d h.1)
    | inr on ↦ rw on (
        remove_all_past ack k info (keys_below f ack d) d (ground arith) (keys_below-lt ack d)
        ∙ ap (λ (r : Dict ℕ (Flight f)). (k, info) ∷ r) (remove_all-keys_below ack d h.1))
  ]

  forget_one :
      (k : ℕ) (s : Sender f)
      → (forget f k (lookup k s.unacked_packets) s).unacked_packets ≡ remove k s.unacked_packets
  unfolding forget
  forget_one k s = ground (arith, remove_absent k s.unacked_packets)

  forget_unacked :
      (ks : List ℕ) (s : Sender f)
      → (forget_all f ks s).unacked_packets ≡ remove_all ks s.unacked_packets
  unfolding forget_all
  forget_unacked [] s = refl
  forget_unacked (k ∷ ks) s =
      forget_unacked ks (forget f k (lookup k s.unacked_packets) s)
      ∙ ap (remove_all ks) (forget_one k s)

  counted_one :
      (k : ℕ) (s : Sender f)
      → IsDistinct s.unacked_packets
      → s.inflight_bytes ≡ total f s.unacked_packets
      → let s' = forget f k (lookup k s.unacked_packets) s in
        s'.inflight_bytes ≡ total f s'.unacked_packets
  unfolding forget
  counted_one k s u h = elim (Option-cases (lookup k s.unacked_packets)) [
    | inl absent ↦ rw (absent, forget) h
    | inr (info, present) ↦
        rw (present, forget) (omega (arith, total-remove f k info s.unacked_packets u present))
  ]

  -- The bytes in flight stay counted, and the subtraction never goes below zero.
  pub forget_counted :
      (ks : List ℕ) (s : Sender f)
      → IsDistinct s.unacked_packets
      → s.inflight_bytes ≡ total f s.unacked_packets
      → (forget_all f ks s).inflight_bytes ≡ total f (forget_all f ks s).unacked_packets
  unfolding forget_all
  forget_counted [] s u h = h
  forget_counted (k ∷ ks) s u h =
      forget_counted ks (forget f k (lookup k s.unacked_packets) s)
        (subst IsDistinct (sym (forget_one k s)) (remove-IsDistinct k s.unacked_packets u))
        (counted_one k s u h)

  pub forget_unacked_below :
      (ack : ℕ) (s : Sender f)
      → IsDistinct s.unacked_packets
      → (forget_all f (keys_below f ack s.unacked_packets) s).unacked_packets
        ≡ from_on ack s.unacked_packets
  forget_unacked_below ack s h =
      forget_unacked (keys_below f ack s.unacked_packets) s
      ∙ remove_all-keys_below ack s.unacked_packets h

  -- Forgetting touches the packets in flight and their count alone.
  pub forget_all_rule {ℓ} :
      (P : Sender f → Type ℓ) (ks : List ℕ) (s : Sender f)
      → ((n : ℕ) (d : Dict ℕ (Flight f)) → P (record s { inflight_bytes = n; unacked_packets = d }))
      → P (forget_all f ks s)
  unfolding forget_all forget
  forget_all_rule P [] s h = h s.inflight_bytes s.unacked_packets
  forget_all_rule P (k ∷ ks) s h = elim (Option-cases (lookup k s.unacked_packets)) [
    | inl absent ↦ rw absent (forget_all_rule P ks s h)
    | inr (info, present) ↦ rw present (forget_all_rule P ks _ h)
  ]

  pub lookup-from_on :
      (ack k : ℕ) (d : Dict ℕ (Flight f))
      → lookup k (from_on ack d) ≡ (if ltb k ack then none else lookup k d)
  unfolding lookup
  lookup-from_on ack k [] = ground arith
  lookup-from_on ack k ((j, info) ∷ d) = ground (arith, lookup-from_on ack k d)

  pub from_on-IsDistinct :
      (ack : ℕ) (d : Dict ℕ (Flight f)) → IsDistinct d → IsDistinct (from_on ack d)
  from_on-IsDistinct ack [] h = tt
  from_on-IsDistinct ack ((j, info) ∷ d) h =
      ground (arith, lookup-from_on ack j d, from_on-IsDistinct ack d h.1)
