-- ===== src/Rudp/Sender/Base.antt =====
-- How far the sender believes that its packets have arrived: `base` moves by acknowledgments alone.
use rudp_agent_stack.Base.{ℕ, ◌+◌, ◌-◌, ◌≤◌, Option, none, some, List, [], ◌∷◌, nat_eq, length}
use rudp_agent_stack.Base.Dict.{lookup}
use rudp_agent_stack.Bytes.{Bytes}
use rudp_agent_stack.Rudp.Float.{Float}
use rudp_agent_stack.Rudp.Sender.{
  Flight, Sender, launch, try_send, chunks, push_chunks, enqueue_data,
}
use rudp_agent_stack.Rudp.Sender.Acknowledge.{
  sample_rtt, keys_below, forget_all, grow, resend, new_ack, on_ack_received, check_timeouts,
}
use rudp_agent_stack.Rudp.Sender.Rules.{
  try_send_rule, sample_rtt_rule, grow_rule, entered, inflated, backed_off, duplicate_ack_rule,
  on_ack_received_rule, expire_rule,
}
use rudp_agent_stack.Rudp.Sender.Forget.{forget_all_rule}

module _ (f : Float) (n : ℕ) where
  open f use {F}

  -- The sender counts on no more than the first `n` packets.
  abbrev pub Expects : Sender f → Type 0
  Expects s = s.base ≤ n

  try_send-Expects : (now : F) (s : Sender f) → Expects s → Expects (try_send f now s)
  try_send-Expects now s h =
      try_send_rule f (λ _. Expects) now (λ _ _ _ k. k) (λ p rest q _ k. unfold launch in k) s h

  push_chunks-Expects :
      (msg total i offset : ℕ) (parts : List Bytes) (s : Sender f)
      → Expects s
      → Expects (push_chunks f msg total i offset parts s)
  unfolding push_chunks
  push_chunks-Expects msg total i offset [] s h = h
  push_chunks-Expects msg total i offset (part ∷ rest) s h =
      push_chunks-Expects msg total (i + 1) (offset + length part) rest _ h

  pub enqueue_data-Expects :
      (bytes : Bytes) (msg : ℕ) (now : F) (s : Sender f)
      → Expects s
      → Expects (enqueue_data f bytes msg now s)
  unfolding enqueue_data
  enqueue_data-Expects bytes msg now s h =
      try_send-Expects now _
        (push_chunks-Expects msg (length (chunks bytes)) 0 0 (chunks bytes) s h)

  resend-Expects :
      (now : F) (o : Option (Flight f)) (s : Sender f) → Expects s → Expects (resend f o now s)
  unfolding resend
  resend-Expects now none s h = h
  resend-Expects now (some info) s h = h

  pub check_timeouts-Expects :
      (now : F) (s : Sender f) → Expects s → Expects (check_timeouts f now s)
  unfolding check_timeouts
  check_timeouts-Expects now s h =
      let oldest = lookup s.base s.unacked_packets in
      expire_rule f Expects now oldest s (resend-Expects now oldest (backed_off f s) h) h

  new_ack-Expects : (ack : ℕ) (now : F) (s : Sender f) → ack ≤ n → Expects (new_ack f ack now s)
  unfolding new_ack
  new_ack-Expects ack now s h =
      let s1 : Sender f = record s { base = ack; dup_ack_count = 0; last_ack_received = ack } in
      let s2 = sample_rtt f (lookup (ack - 1) s1.unacked_packets) now s1 in
      let s3 = forget_all f (keys_below f ack s1.unacked_packets) s2 in
      let after : Expects s3 =
        forget_all_rule f Expects (keys_below f ack s1.unacked_packets) s2 (λ _ _.
          sample_rtt_rule f Expects (lookup (ack - 1) s1.unacked_packets) now s1 h (λ _ _ _. h)) in
      try_send-Expects now (grow f s3.cc_state s3)
        (grow_rule f Expects s3.cc_state s3 (λ _ _. after))

  -- An acknowledgment of no more than `n` packets.
  pub on_ack_received-Expects :
      (ack rwnd : ℕ) (now : F) (s : Sender f)
      → ack ≤ n
      → Expects s
      → Expects (on_ack_received f ack rwnd now s)
  on_ack_received-Expects ack rwnd now s bound h =
      let s1 : Sender f = record s { peer_rwnd = rwnd } in
      on_ack_received_rule f Expects now ack rwnd s (λ _. new_ack-Expects ack now s1 bound)
        (duplicate_ack_rule f Expects now s1
          (resend-Expects now (lookup s.base s.unacked_packets) (entered f s1) h)
          (try_send-Expects now (inflated f s1) h) h)
        h
