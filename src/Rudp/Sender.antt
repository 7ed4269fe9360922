-- ===== src/Rudp/Sender.antt =====
-- common/rudp_sender.py: the state of the sender, fragmentation and the sliding window. The child
-- module Acknowledge has the congestion control and the retransmission timer.
pub mod Acknowledge
pub mod Rules
pub mod Chunks
pub mod Ledger
pub mod Forget
pub mod Stream
pub mod Truthful
pub mod Run
pub mod Sound
pub mod Acks
pub mod Window
pub mod Timer
pub mod Base
use rudp_agent_stack.Base.{
  ℕ, zero, suc, ◌+◌, ◌-◌, ◌*◌, ◌/◌, Bool, true, false, Option, none, some, List, [], ◌∷◌, ◌++◌, ok,
  err, ltb, leb, ◌==◌, if◌then◌else◌, length, take, drop, nat_eq, ◌&&◌, max, min, not,
}
use rudp_agent_stack.Base.Dict.{Dict, lookup, insert, remove}
use rudp_agent_stack.Constants.{mss, flag_fin, initial_cwnd, initial_ssthresh}
use rudp_agent_stack.Bytes.{Bytes}
use rudp_agent_stack.Rudp.Packet.{RudpPacket, pack}
use rudp_agent_stack.Rudp.Float.{Float, maximum, minimum}

pub data CcState : Type 0 where
  slow_start avoidance fast_recovery : CcState

-- send_callback(packet.pack()) inside its `try`: what was sent is noted, a `struct.error` is logged
-- and passed over. The packet comes back as `pack` leaves it.
unfoldable pub transmit : RudpPacket → List Bytes → RudpPacket × List Bytes
transmit p wire = elim (pack p) [
  | ok packed ↦ (packed.1, wire ++ packed.0 ∷ [])
  | err e ↦ (p, wire)
]

-- [data[i:i + MSS] for i in range(0, max(len(data), 1), MSS)], from `i` on with `count` rounds left
unfoldable pub chunks_from : ℕ → ℕ → Bytes → List Bytes
chunks_from zero i bytes = []
chunks_from (suc count) i bytes = take mss (drop i bytes) ∷ chunks_from count (i + mss) bytes

unfoldable pub chunks : Bytes → List Bytes
chunks bytes = chunks_from ((max (length bytes) 1 + (mss - 1)) / mss) 0 bytes

-- The packet of the chunk number `i` of `total`.
abbrev pub fragment : ℕ → ℕ → ℕ → ℕ → ℕ → Bytes → RudpPacket
fragment seq msg_id total i offset chunk = record {
  seq_num = seq;
  ack_num = 0;
  flags = if i == total - 1 then flag_fin else 0;
  rwnd = 0;
  checksum = 0;
  msg_id = some msg_id;
  offset = some offset;
  payload = chunk;
}

module _ (f : Float) where
  open f use {F, of_nat, decimal, add, sub, mul, div, abs, lt, le, floor_div}

  pub record Flight : Type 0 where
    pub packet : RudpPacket
    pub sent_time : F
    pub is_retransmitted : Bool

  -- `wire` holds the datagrams that went to the send callback, the first one first.
  pub record Sender : Type 0 where
    pub window_size : ℕ
    pub base : ℕ
    pub next_seq : ℕ
    pub cc_state : CcState
    pub cwnd : F
    pub ssthresh : F
    pub dup_ack_count : ℕ
    pub last_ack_received : ℕ
    pub inflight_bytes : ℕ
    pub peer_rwnd : ℕ
    pub effective_window : ℕ
    pub rto : F
    pub srtt : Option F
    pub rttvar : Option F
    pub min_rto : F
    pub max_rto : F
    pub unacked_packets : Dict ℕ Flight
    pub send_buffer : List RudpPacket
    pub wire : List Bytes

  abbrev pub init : ℕ → Sender
  init window_size = record {
    window_size = window_size;
    base = 0;
    next_seq = 0;
    cc_state = slow_start;
    cwnd = of_nat initial_cwnd;
    ssthresh = of_nat initial_ssthresh;
    dup_ack_count = 0;
    last_ack_received = 0;
    inflight_bytes = 0;
    peer_rwnd = window_size;
    effective_window = 0;
    rto = decimal 5 10;
    srtt = none;
    rttvar = none;
    min_rto = decimal 1 10;
    max_rto = of_nat 4;
    unacked_packets = [];
    send_buffer = [];
    wire = [];
  }

  -- The window of segments that the loop computes.
  abbrev pub window_of : F → ℕ → ℕ
  window_of cwnd peer = min (max 1 (floor_div cwnd mss)) peer

  -- The packet at the head of the buffer enters the window and is sent.
  pub launch : RudpPacket → F → Sender → Sender
  unfolding transmit
  launch p now s =
      let (p', wire') = transmit p s.wire in
      record s {
        unacked_packets =
            insert p.seq_num (record { packet = p'; sent_time = now; is_retransmitted = false })
              s.unacked_packets;
        inflight_bytes = s.inflight_bytes + length p.payload;
        wire = wire';
      }

  -- The loop of `_try_send`; each round takes one packet off the buffer.
  pub send_loop : List RudpPacket → F → Sender → Sender
  send_loop [] now s = record s { send_buffer = [] }
  send_loop (p ∷ rest) now s =
      let window = window_of s.cwnd s.peer_rwnd in
      let s' = record s { effective_window = window; send_buffer = p ∷ rest } in
      let sent = send_loop rest now (launch p now s') in
      if lt s.cwnd (of_nat (s.inflight_bytes + length p.payload))
      then record s { send_buffer = p ∷ rest }
      else if leb window (length s.unacked_packets)
      then s'
      else sent

  unfoldable pub try_send : F → Sender → Sender
  unfolding send_loop launch
  try_send now s = send_loop s.send_buffer now s

  pub push_chunks : ℕ → ℕ → ℕ → ℕ → List Bytes → Sender → Sender
  push_chunks msg_id total i offset [] s = s
  push_chunks msg_id total i offset (chunk ∷ rest) s =
      push_chunks msg_id total (i + 1) (offset + length chunk) rest (record s {
        send_buffer = s.send_buffer ++ fragment s.next_seq msg_id total i offset chunk ∷ [];
        next_seq = s.next_seq + 1;
      })

  unfoldable pub enqueue_data : Bytes → ℕ → F → Sender → Sender
  unfolding push_chunks chunks try_send chunks_from
  enqueue_data bytes msg_id now s =
      let parts = chunks bytes in try_send now (push_chunks msg_id (length parts) 0 0 parts s)
