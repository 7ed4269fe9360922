-- ===== src/Rudp/Sender/Timer.antt =====
-- The retransmission timer stays between its bounds.
use rudp_agent_stack.Base.{
  ℕ, ◌+◌, ◌-◌, ◌≡◌, refl, true, subst, inl, inr, Option, none, some, List, [], ◌∷◌, length,
  Bool-cases, nat_eq,
}
use rudp_agent_stack.Base.Dict.{lookup}
use rudp_agent_stack.Bytes.{Bytes}
use rudp_agent_stack.Rudp.Float.{Float, IsOrderedFloat, maximum, minimum}
use rudp_agent_stack.Rudp.Sender.{
  Flight, Sender, init, launch, try_send, push_chunks, enqueue_data, chunks,
}
use rudp_agent_stack.Rudp.Sender.Acknowledge.{
  resend, sample_rtt, measure, forget_all, keys_below, new_ack, duplicate_ack, expire,
  check_timeouts,
}
use rudp_agent_stack.Rudp.Sender.Rules.{
  try_send_rule, grow_rule, entered, inflated, backed_off, duplicate_ack_rule, on_ack_received_rule,
  expire_rule,
}
use rudp_agent_stack.Rudp.Sender.Forget.{forget_all_rule}
use rudp_agent_stack.Rudp.Sender.Run.{Event, enqueue, ack, tick, run, step}

module _ (f : Float) (laws : IsOrderedFloat f) where
  open f use {F, of_nat, decimal, lt, le, sub, mul, add}

  pub record Timed (min_rto max_rto rto : F) : Type 0 where
    pub least : min_rto ≡ decimal 1 10
    pub most : max_rto ≡ of_nat 4
    pub above : le min_rto rto ≡ true
    pub below : le rto max_rto ≡ true

  abbrev pub IsTimed : Sender f → Type 0
  IsTimed s = Timed s.min_rto s.max_rto s.rto

  min-le-max :
      (s : Sender f)
      → s.min_rto ≡ decimal 1 10
      → s.max_rto ≡ of_nat 4
      → le s.min_rto s.max_rto ≡ true
  min-le-max s a b = rw (a, b) (laws.le_trans _ _ _ laws.literals_low laws.literals_high)

  minimum-le : (x y : F) → le (minimum f x y) y ≡ true
  minimum-le x y = elim (Bool-cases (lt y x)) [
    | inl e ↦ rw e (laws.le_refl y)
    | inr e ↦ rw e (laws.le_of_not_lt y x e)
  ]

  le-minimum : (z x y : F) → le z x ≡ true → le z y ≡ true → le z (minimum f x y) ≡ true
  le-minimum z x y a b = elim (Bool-cases (lt y x)) [ inl e ↦ rw e b | inr e ↦ rw e a ]

  le-maximum : (x y : F) → le x (maximum f x y) ≡ true
  le-maximum x y = elim (Bool-cases (lt x y)) [
    | inl e ↦ rw e (laws.le_of_lt x y e)
    | inr e ↦ rw e (laws.le_refl x)
  ]

  maximum-le : (x y z : F) → le x z ≡ true → le y z ≡ true → le (maximum f x y) z ≡ true
  maximum-le x y z a b = elim (Bool-cases (lt x y)) [ inl e ↦ rw e b | inr e ↦ rw e a ]

  sample_rtt-IsTimed :
      (o : Option (Flight f)) (now : F) (s : Sender f) → IsTimed s → IsTimed (sample_rtt f o now s)
  unfolding sample_rtt measure
  sample_rtt-IsTimed none now s h = h
  sample_rtt-IsTimed (some info) now s h = elim (Bool-cases info.is_retransmitted) [
    | inl again ↦ rw again h
    | inr once ↦ rw once (record {
      least = h.least;
      most = h.most;
      above = le-maximum s.min_rto _;
      below =
          maximum-le s.min_rto _ s.max_rto (min-le-max s h.least h.most) (minimum-le _ s.max_rto);
    })
  ]

  resend-IsTimed :
      (o : Option (Flight f)) (now : F) (s : Sender f) → IsTimed s → IsTimed (resend f o now s)
  unfolding resend
  resend-IsTimed none now s h = h
  resend-IsTimed (some info) now s h = h

  try_send-IsTimed : (now : F) (s : Sender f) → IsTimed s → IsTimed (try_send f now s)
  try_send-IsTimed now s h =
      try_send_rule f (λ _ q. IsTimed q) now (λ _ q w k. k) (λ p rest q _ k. unfold launch in k) s h

  expire-IsTimed :
      (o : Option (Flight f)) (now : F) (s : Sender f) → IsTimed s → IsTimed (expire f o now s)
  expire-IsTimed o now s h =
      let doubled = mul s.rto (decimal 20 10) in
      let more = laws.le_trans _ _ _ (rw h.least laws.literals_zero) h.above in
      expire_rule f IsTimed now o s
        (resend-IsTimed o now (backed_off f s) (record {
          least = h.least;
          most = h.most;
          above =
              le-minimum s.min_rto doubled s.max_rto
                (laws.le_trans _ _ _ h.above (laws.le_double s.rto more))
                (min-le-max s h.least h.most);
          below = minimum-le doubled s.max_rto;
        }))
        h

  push_chunks-IsTimed :
      (msg total i offset : ℕ) (parts : List Bytes) (s : Sender f)
      → IsTimed s
      → IsTimed (push_chunks f msg total i offset parts s)
  unfolding push_chunks
  push_chunks-IsTimed msg total i offset [] s h = h
  push_chunks-IsTimed msg total i offset (part ∷ rest) s h =
      push_chunks-IsTimed msg total (i + 1) (offset + length part) rest _ (h)

  new_ack-IsTimed : (n : ℕ) (now : F) (s : Sender f) → IsTimed s → IsTimed (new_ack f n now s)
  unfolding new_ack
  new_ack-IsTimed n now s h =
      let s1 : Sender f = record s { base = n; dup_ack_count = 0; last_ack_received = n } in
      let s2 = sample_rtt f (lookup (n - 1) s1.unacked_packets) now s1 in
      let s3 = forget_all f (keys_below f n s1.unacked_packets) s2 in
      let k2 : IsTimed s2 = sample_rtt-IsTimed (lookup (n - 1) s1.unacked_packets) now s1 (h) in
      let k3 : IsTimed s3 =
        forget_all_rule f IsTimed (keys_below f n s1.unacked_packets) s2 (λ m d. k2) in
      try_send-IsTimed now _ (grow_rule f IsTimed s3.cc_state s3 (λ w c. k3))

  duplicate_ack-IsTimed : (now : F) (s : Sender f) → IsTimed s → IsTimed (duplicate_ack f now s)
  duplicate_ack-IsTimed now s h =
      duplicate_ack_rule f IsTimed now s
        (resend-IsTimed (lookup s.base s.unacked_packets) now (entered f s) h)
        (try_send-IsTimed now (inflated f s) h) h

  step-IsTimed : (e : Event F) (s : Sender f) → IsTimed s → IsTimed (step f e s)
  unfolding step enqueue_data check_timeouts
  step-IsTimed (enqueue bytes msg now) s h =
      try_send-IsTimed now _
        (push_chunks-IsTimed msg (length (chunks bytes)) 0 0 (chunks bytes) s h)
  step-IsTimed (ack n rwnd now) s h =
      let s1 : Sender f = record s { peer_rwnd = rwnd } in
      on_ack_received_rule f IsTimed now n rwnd s (λ _. new_ack-IsTimed n now s1 h)
        (duplicate_ack-IsTimed now s1 h) h
  step-IsTimed (tick now) s h = expire-IsTimed (lookup s.base s.unacked_packets) now s h

  run-IsTimed : (es : List (Event F)) (s : Sender f) → IsTimed s → IsTimed (run f es s)
  unfolding run
  run-IsTimed [] s h = h
  run-IsTimed (e ∷ es) s h = run-IsTimed es _ (step-IsTimed e s h)

  -- For floats that obey the order laws, whatever messages, acknowledgments and ticks a sender goes
  -- through, its retransmission timeout is between 0.1 and 4 seconds.
  pub rto_bounds :
      (es : List (Event F)) (window : ℕ)
      → let s = run f es (init f window) in
        (le (decimal 1 10) s.rto ≡ true) × (le s.rto (of_nat 4) ≡ true)
  rto_bounds es window =
      let h = run-IsTimed es (init f window) (record {
        least = refl;
        most = refl;
        above = laws.literals_low;
        below = laws.literals_high;
      }) in
      (
        subst (λ x. le x (run f es (init f window)).rto ≡ true) h.least h.above,
        subst (λ x. le (run f es (init f window)).rto x ≡ true) h.most h.below,
      )
