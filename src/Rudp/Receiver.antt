-- ===== src/Rudp/Receiver.antt =====
-- common/rudp_receiver.py: reordering, cumulative acknowledgment and flow control.
pub mod Drain
pub mod Window
pub mod Stream
pub mod Progress
pub mod FlowControl
use rudp_agent_stack.Base.{
  ℕ, zero, suc, ◌+◌, ◌-◌, ◌*◌, ◌/◌, Bool, true, false, Option, none, some, List, [], ◌∷◌, ◌++◌, ltb,
  leb, ◌==◌, if◌then◌else◌, length, nat_eq, ◌&&◌, ◌≤◌, not,
}
use rudp_agent_stack.Base.Dict.{Dict, lookup, contains, insert, remove}
use rudp_agent_stack.Constants.{flag_ack, max_rwnd, high_watermark_per_100, low_watermark_per_100}
use rudp_agent_stack.Bytes.{Bytes}
use rudp_agent_stack.Rudp.Packet.{RudpPacket, is_fin}

pub data FcState : Type 0 where
  normal throttle : FcState

pub record Stats : Type 0 where
  pub delivered : ℕ
  pub buffered : ℕ
  pub dup : ℕ
  pub dropped : ℕ
  pub drop_invalid : ℕ
  pub fc_throttle : ℕ
  pub fc_normal : ℕ

-- `messages` holds what `deliver_callback` was called with, the first call first.
pub record Receiver : Type 0 where
  pub expected_seq : ℕ
  pub ooo_buffer : Dict ℕ RudpPacket
  pub assembly_buffer : Bytes
  pub messages : List Bytes
  pub fc_state : FcState
  pub stats : Stats

-- What `process_segment` returns.
pub record Ack : Type 0 where
  pub ack_num : ℕ
  pub rwnd : ℕ
  pub flags : ℕ

abbrev ceil_per_100 : ℕ → ℕ
ceil_per_100 n = (n + 99) / 100

abbrev pub high_threshold : ℕ
high_threshold = ceil_per_100 (high_watermark_per_100 * max_rwnd)

abbrev pub low_threshold : ℕ
low_threshold = ceil_per_100 (low_watermark_per_100 * max_rwnd)

abbrev pub init : Receiver
init = record {
  expected_seq = 0;
  ooo_buffer = [];
  assembly_buffer = [];
  messages = [];
  fc_state = normal;
  stats = record {
    delivered = 0;
    buffered = 0;
    dup = 0;
    dropped = 0;
    drop_invalid = 0;
    fc_throttle = 0;
    fc_normal = 0;
  };
}

-- The in-order segment: its bytes go to the assembly, and a FIN delivers the assembled message.
pub accept : RudpPacket → Receiver → Receiver
accept segment r =
    let assembled = r.assembly_buffer ++ segment.payload in
    let fin = is_fin segment in
    record r {
      expected_seq = r.expected_seq + 1;
      assembly_buffer = if fin then [] else assembled;
      messages = if fin then r.messages ++ assembled ∷ [] else r.messages;
      stats = record (r.stats) { delivered = r.stats.delivered + 1 };
    }

-- while self.expected_seq in self.ooo_buffer; each round takes one segment out of the buffer.
pub drain : ℕ → Receiver → Receiver
drain zero r = r
drain (suc fuel) r = elim (lookup r.expected_seq r.ooo_buffer) [
  | none ↦ r
  | some segment ↦
      drain fuel (accept segment (record r { ooo_buffer = remove r.expected_seq r.ooo_buffer }))
]

pub in_order : RudpPacket → Receiver → Receiver
in_order segment r = drain (length r.ooo_buffer) (accept segment r)

pub buffer : RudpPacket → Receiver → Receiver
buffer segment r = if contains segment.seq_num r.ooo_buffer then r else record r {
  ooo_buffer = insert segment.seq_num segment r.ooo_buffer;
  stats = record (r.stats) { buffered = r.stats.buffered + 1 };
}

-- The steps 2 to 4 of `process_segment`.
pub route : RudpPacket → Receiver → Receiver
route segment r =
    let seq = segment.seq_num in
    if ltb seq r.expected_seq
    then record r { stats = record (r.stats) { dup = r.stats.dup + 1 } }
    else if not (leb r.expected_seq seq && ltb seq (r.expected_seq + max_rwnd))
    then record r { stats = record (r.stats) { dropped = r.stats.dropped + 1 } }
    else if seq == r.expected_seq
    then in_order segment r
    else buffer segment r

-- The hysteresis of step 5.
pub fc_step : FcState → ℕ → Receiver → Receiver
fc_step normal used r =
    if leb high_threshold used
    then record r {
      fc_state = throttle;
      stats = record (r.stats) { fc_throttle = r.stats.fc_throttle + 1 };
    }
    else r
fc_step throttle used r =
    if leb used low_threshold
    then record r {
      fc_state = normal;
      stats = record (r.stats) { fc_normal = r.stats.fc_normal + 1 };
    }
    else r

pub flow_control : Receiver → Receiver
flow_control r = fc_step r.fc_state (length r.ooo_buffer) r

-- `max(0, MAX_RWND - buffer_used)` is the truncated difference.
pub answer : Receiver → Ack
answer r = record {
  ack_num = r.expected_seq;
  rwnd = max_rwnd - length r.ooo_buffer;
  flags = flag_ack;
}

unfoldable pub process_segment : RudpPacket → Receiver → Receiver × Ack
unfolding accept drain in_order buffer route fc_step flow_control answer
process_segment segment r = let r' = flow_control (route segment r) in (r', answer r')

-- The segments that the transport hands over, one after the other.
unfoldable pub process_all : List RudpPacket → Receiver → Receiver
process_all [] r = r
process_all (segment ∷ rest) r = process_all rest (process_segment segment r).0
