-- ===== src/Rudp/Sender/Acknowledge.antt =====
-- common/rudp_sender.py: what acknowledgments and the timer do to the sender.
use rudp_agent_stack.Base.{
  ℕ, ◌+◌, ◌-◌, ◌*◌, Bool, true, false, Option, none, some, List, [], ◌∷◌, ltb, ◌==◌, if◌then◌else◌,
  length, nat_eq, ◌&&◌, not,
}
use rudp_agent_stack.Base.Dict.{Dict, lookup, insert, remove}
use rudp_agent_stack.Constants.{mss}
use rudp_agent_stack.Rudp.Float.{Float, maximum, minimum}
use rudp_agent_stack.Rudp.Sender.{
  CcState, slow_start, avoidance, fast_recovery, Flight, Sender, transmit, try_send,
}

abbrev pub is_fast_recovery : CcState → Bool
is_fast_recovery fast_recovery = true
is_fast_recovery _ = false

module _ (f : Float) where
  open f use {F, of_nat, decimal, add, sub, mul, div, abs, lt, le, floor_div}

  -- The estimate of the round trip from a packet that was sent once, and the timer that it sets.
  -- `srtt` and `rttvar` are set together, so the second case of `next_rttvar` is not reached.
  abbrev pub next_rttvar : Option F → Option F → F → F
  next_rttvar (some srtt) (some rttvar) sample =
      add (mul (sub (decimal 10 10) (decimal 25 100)) rttvar)
        (mul (decimal 25 100) (abs (sub srtt sample)))
  next_rttvar (some srtt) none sample = div sample (decimal 20 10)
  next_rttvar none rttvar sample = div sample (decimal 20 10)

  abbrev pub next_srtt : Option F → F → F
  next_srtt (some srtt) sample =
      add (mul (sub (decimal 10 10) (decimal 125 1000)) srtt) (mul (decimal 125 1000) sample)
  next_srtt none sample = sample

  unfoldable pub measure : F → Sender f → Sender f
  measure sample s =
      let rttvar = next_rttvar s.srtt s.rttvar sample in
      let srtt = next_srtt s.srtt sample in
      let raw_rto = add srtt (mul (decimal 40 10) rttvar) in
      record s {
        srtt = some srtt;
        rttvar = some rttvar;
        rto = maximum f s.min_rto (minimum f raw_rto s.max_rto);
      }

  -- Karn's rule: a packet that was sent again is no measurement.
  unfoldable pub sample_rtt : Option (Flight f) → F → Sender f → Sender f
  sample_rtt none now s = s
  sample_rtt (some info) now s =
      if info.is_retransmitted then s else measure (sub now info.sent_time) s

  -- [seq for seq in self.unacked_packets.keys() if seq < ack_num]
  unfoldable pub keys_below : ℕ → Dict ℕ (Flight f) → List ℕ
  keys_below ack [] = []
  keys_below ack ((k, info) ∷ d) =
      let rest = keys_below ack d in if ltb k ack then k ∷ rest else rest

  unfoldable pub forget : ℕ → Option (Flight f) → Sender f → Sender f
  forget seq none s = s
  forget seq (some info) s = record s {
    inflight_bytes = s.inflight_bytes - length (info.packet.payload);
    unacked_packets = remove seq s.unacked_packets;
  }

  unfoldable pub forget_all : List ℕ → Sender f → Sender f
  forget_all [] s = s
  forget_all (seq ∷ rest) s = forget_all rest (forget seq (lookup seq s.unacked_packets) s)

  -- The growth of the congestion window on a new acknowledgment.
  unfoldable pub grow : CcState → Sender f → Sender f
  grow slow_start s =
      let cwnd = add s.cwnd (of_nat mss) in
      record s { cwnd = cwnd; cc_state = if le s.ssthresh cwnd then avoidance else slow_start }
  grow avoidance s = record s { cwnd = add s.cwnd (div (of_nat (mss * mss)) s.cwnd) }
  grow fast_recovery s = record s { cwnd = s.ssthresh; cc_state = avoidance }

  unfoldable pub new_ack : ℕ → F → Sender f → Sender f
  unfolding sample_rtt measure keys_below forget forget_all grow try_send
  new_ack ack now s =
      let s1 = record s { base = ack; dup_ack_count = 0; last_ack_received = ack } in
      let acked = keys_below ack s1.unacked_packets in
      let s2 = sample_rtt (lookup (ack - 1) s1.unacked_packets) now s1 in
      let s3 = forget_all acked s2 in try_send f now (grow s3.cc_state s3)

  -- Sends the oldest packet again, if it is in flight.
  unfoldable pub resend : Option (Flight f) → F → Sender f → Sender f
  unfolding transmit
  resend none now s = s
  resend (some info) now s =
      let (p', wire') = transmit info.packet s.wire in
      record s {
        unacked_packets =
            insert s.base (record { packet = p'; sent_time = now; is_retransmitted = true })
              s.unacked_packets;
        wire = wire';
      }

  abbrev pub halved : Sender f → F
  halved s = maximum f (div s.cwnd (decimal 20 10)) (mul (decimal 20 10) (of_nat mss))

  unfoldable pub duplicate_ack : F → Sender f → Sender f
  unfolding resend try_send
  duplicate_ack now s =
      let s1 = record s { dup_ack_count = s.dup_ack_count + 1 } in
      if s1.dup_ack_count == 3 && not (is_fast_recovery s.cc_state)
      then resend (lookup s.base s.unacked_packets) now (record s1 {
        cc_state = fast_recovery;
        ssthresh = halved s;
        cwnd = add (halved s) (mul (decimal 30 10) (of_nat mss));
      })
      else if ltb 3 s1.dup_ack_count && is_fast_recovery s.cc_state
      then try_send f now (record s1 { cwnd = add s.cwnd (of_nat mss) })
      else s1

  unfoldable pub on_ack_received : ℕ → ℕ → F → Sender f → Sender f
  unfolding new_ack duplicate_ack
  on_ack_received ack rwnd now s =
      let s1 = record s { peer_rwnd = rwnd } in
      if ltb s.base ack
      then new_ack ack now s1
      else if (ack == s.last_ack_received) && (ack == s.base)
      then duplicate_ack now s1
      else s1

  -- The expiry of the timer of the packet at `base`.
  unfoldable pub expire : Option (Flight f) → F → Sender f → Sender f
  unfolding resend
  expire none now s = s
  expire (some info) now s =
      if le s.rto (sub now info.sent_time)
      then resend (some info) now (record s {
        ssthresh = halved s;
        cwnd = of_nat mss;
        cc_state = slow_start;
        rto = minimum f (mul s.rto (decimal 20 10)) s.max_rto;
      })
      else s

  unfoldable pub check_timeouts : F → Sender f → Sender f
  unfolding expire
  check_timeouts now s = expire (lookup s.base s.unacked_packets) now s
