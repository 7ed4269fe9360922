-- ===== src/Rudp/Tests.antt =====
-- Concrete runs of the transport, and its theorems at inputs that meet their hypotheses.
use rudp_agent_stack.Base.{
  All, ℕ, zero, suc, ◌+◌, ◌*◌, ◌/◌, ◌≤◌, ◌<◌, ◌≡◌, ◌⊎◌, refl, true, inl, inr, List, [], ◌∷◌, arith,
  length, take, leb, nat_eq,
}
use rudp_agent_stack.Base.Dict.{lookup, insert, remove}
use rudp_agent_stack.Constants.{max_rwnd}
use rudp_agent_stack.Bytes.{Bytes}
use rudp_agent_stack.Rudp.Packet.{has_data, RudpPacket, pack, unpack, checksum_of, is_fin}
use rudp_agent_stack.Rudp.Receiver
use rudp_agent_stack.Rudp.Receiver.{Receiver, process_segment, process_all, normal, throttle}
use rudp_agent_stack.Rudp.Receiver.Window.{IsOrdered, process_segment-IsOrdered, rwnd_bounds}
use rudp_agent_stack.Rudp.Receiver.Progress.{Arrives, process_all_complete}
use rudp_agent_stack.Rudp.Float.{IsOrderedFloat}
use rudp_agent_stack.Samples.{milli}
use rudp_agent_stack.Rudp.Sender
use rudp_agent_stack.Rudp.Sender.{chunks, Sender, Flight, enqueue_data, try_send}
use rudp_agent_stack.Rudp.Sender.Acknowledge.{on_ack_received, check_timeouts}
use rudp_agent_stack.Rudp.Sender.Chunks.{fragments}
use rudp_agent_stack.Rudp.Sender.Run.{stream_of, Event, enqueue, tick, run, step, messages_of}
use rudp_agent_stack.Rudp.Sender.Window.{WithinWindows, try_send-WithinWindows}
use rudp_agent_stack.Rudp.Sender.Timer.{rto_bounds}
use rudp_agent_stack.Rudp.Connection.{Connection, receive_all}
use rudp_agent_stack.Rudp.Connection.Complete.{data_packets, complete_delivery}
use rudp_agent_stack.Rudp.Connection.Delivery.{Arrival, CarriesNothing, reliable_delivery}
use rudp_agent_stack.Rudp.PacketTests.{hello, datagram}

-- Two segments that arrive in the wrong order, the second one twice.
abbrev first : RudpPacket
first = record hello { flags = 0; payload = 1 ∷ [] }

abbrev second : RudpPacket
second = record hello { seq_num = 1; payload = 2 ∷ [] }

abbrev swapped : List RudpPacket
swapped = second ∷ first ∷ second ∷ []

swapped_messages : (process_all swapped Receiver.init).messages ≡ (1 ∷ 2 ∷ []) ∷ []
unfolding process_all process_segment lookup insert remove is_fin
swapped_messages = refl

init-IsOrdered : IsOrdered Receiver.init
init-IsOrdered = record { distinct = tt; inside = tt }

abbrev buffered : Receiver
buffered = record Receiver.init { ooo_buffer = (1, second) ∷ [] }

buffered-IsOrdered : IsOrdered buffered
unfolding lookup
buffered-IsOrdered = record { distinct = (refl, tt); inside = ((omega arith, omega arith), tt) }

process_segment-IsOrdered_example : IsOrdered (process_segment first buffered).0
process_segment-IsOrdered_example = process_segment-IsOrdered buffered first buffered-IsOrdered

rwnd_bounds_example :
    let (r', answered) = process_segment second Receiver.init in
    (answered.ack_num ≡ r'.expected_seq)
    × (1 ≤ answered.rwnd)
    × (answered.rwnd + length r'.ooo_buffer ≡ max_rwnd)
rwnd_bounds_example = rwnd_bounds Receiver.init second init-IsOrdered

all_below_two : (s : ℕ) → 0 ≤ s → s < 2 → Arrives s swapped
all_below_two zero a b = inr (inl refl)
all_below_two (suc zero) a b = inl refl
all_below_two (suc (suc s)) a b = absurd (omega arith)

process_all_complete_example : 2 ≤ (process_all swapped Receiver.init).expected_seq
process_all_complete_example =
    process_all_complete swapped Receiver.init 2 init-IsOrdered (omega arith) all_below_two

-- A message, and its retransmission after 600 ms.
abbrev pub events : List (Event ℕ)
events = enqueue (104 ∷ 105 ∷ 33 ∷ []) 7 0 ∷ tick 600 ∷ []

abbrev sent : Sender milli
sent = run milli events (Sender.init milli 64)

program : Unit {0}
unfolding run step enqueue_data on_ack_received check_timeouts try_send pack unpack checksum_of
    lookup insert
program = tt

wire_of_events : sent.wire ≡ datagram ∷ datagram ∷ []
unfolding program
wire_of_events = refl

abbrev fresh : Connection milli
fresh = record { sender = Sender.init milli 64; receiver = Receiver.init }

-- The datagram twice, and between them one that is too short.
abbrev arrivals : List (Bytes × ℕ)
arrivals = (datagram, 1) ∷ (0 ∷ [], 2) ∷ (datagram, 3) ∷ []

pub short-CarriesNothing : CarriesNothing (0 ∷ [])
unfolding unpack
short-CarriesNothing p e = absurd (ground arith)

arrivals_allowed : All (Arrival milli (run milli events (Sender.init milli 64)).wire) arrivals
unfolding program
arrivals_allowed = (inl (inl refl), (inr short-CarriesNothing, (inl (inl refl), tt)))

reliable_delivery_example :
    (k : ℕ) × ((receive_all milli arrivals fresh).receiver.messages
      ≡ take k (messages_of milli events))
reliable_delivery_example = reliable_delivery milli events 64 arrivals fresh arrivals_allowed refl

abbrev busy : Sender milli
busy = enqueue_data milli (104 ∷ []) 7 0 (Sender.init milli 64)

try_send-WithinWindows_example :
    let s' = try_send milli 5 busy in
    (s'.cwnd ≡ busy.cwnd)
    × (s'.peer_rwnd ≡ busy.peer_rwnd)
    × (((s'.unacked_packets ≡ busy.unacked_packets) × (s'.wire ≡ busy.wire))
        ⊎ WithinWindows milli s')
try_send-WithinWindows_example = try_send-WithinWindows milli 5 busy

double-le : (x : ℕ) → leb 0 x ≡ true → leb x (x * 2000 / 1000) ≡ true
double-le x h = ground arith

milli_laws : IsOrderedFloat milli
milli_laws = record {
  le_refl = λ x. ground arith;
  le_trans = λ x y z a b. ground arith;
  le_of_not_lt = λ x y a. ground arith;
  le_of_lt = λ x y a. ground arith;
  le_double = double-le;
  literals_zero = refl;
  literals_low = refl;
  literals_high = refl;
}

rto_bounds_example : (leb 100 sent.rto ≡ true) × (leb sent.rto 4000 ≡ true)
rto_bounds_example = rto_bounds milli milli_laws events 64

one_segment :
    (length (stream_of (messages_of milli events)) ≤ max_rwnd)
    × ((s : ℕ)
        → s < length (stream_of (messages_of milli events))
        → Arrives s (data_packets milli arrivals))
unfolding program fragments chunks has_data
one_segment = (omega arith, λ s b. go s (omega arith))
  where
    go : (s : ℕ) → s < 1 → Arrives s (data_packets milli arrivals)
    go zero b = inl refl
    go (suc s) b = absurd (omega arith)

complete_delivery_example :
    (receive_all milli arrivals fresh).receiver.messages ≡ messages_of milli events
complete_delivery_example =
    complete_delivery milli events 64 arrivals fresh arrivals_allowed refl one_segment.0
      one_segment.1
