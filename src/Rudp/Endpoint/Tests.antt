-- ===== src/Rudp/Endpoint/Tests.antt =====
-- A message that one endpoint sends, the other hears and acknowledges, and the first hears the answer.
use rudp_agent_stack.Base.{
  ◌<◌, ◌-◌, leb, if◌then◌else◌, true, length, arith, nat_eq, some, ◌≤◌, ℕ, ◌≡◌, refl, inl, [], ◌∷◌,
  take,
}
use rudp_agent_stack.Base.Dict.{lookup, insert, remove}
use rudp_agent_stack.Bytes.{Bytes}
use rudp_agent_stack.Samples.{milli}
use rudp_agent_stack.Rudp.Packet.{has_data, is_ack, pack, unpack, checksum_of, calculate_checksum}
use rudp_agent_stack.Rudp.Receiver.{process_segment}
use rudp_agent_stack.Rudp.Sender.{Sender, Flight, transmit, enqueue_data, try_send}
use rudp_agent_stack.Rudp.Sender.Acknowledge.{on_ack_received, check_timeouts}
use rudp_agent_stack.Rudp.Sender.Ledger.{IsSound, first_unsent}
use rudp_agent_stack.Rudp.Connection.{receive_datagram, acknowledge}
use rudp_agent_stack.Rudp.Endpoint.{
  Pair, Reach, start, next, sends, hears, rounds, other, send, hear, tick, loop_round, fresh, swap,
  MayArrive,
}
use rudp_agent_stack.Rudp.Endpoint.Safety.{
  check_timeouts-resends, two_way_delivery, Reach-IsSound, settled_delivery,
}
use rudp_agent_stack.Rudp.PacketTests.{datagram}

abbrev greeting : Bytes
greeting = 104 ∷ 105 ∷ 33 ∷ []

abbrev opening : Pair milli
opening = record { near = fresh milli; far = fresh milli }

abbrev spoken : Pair milli
spoken = record opening { near = send milli greeting 7 0 opening.near }

abbrev answered : Pair milli
answered = record spoken { far = hear milli datagram 1 spoken.far }

program : Unit {0}
unfolding has_data is_ack send hear tick loop_round receive_datagram acknowledge enqueue_data
    on_ack_received check_timeouts try_send pack unpack checksum_of calculate_checksum
    process_segment lookup insert remove
program = tt

abbrev reply : Bytes
reply = 0 ∷ 0 ∷ 0 ∷ 0 ∷ 0 ∷ 0 ∷ 0 ∷ 1 ∷ 2 ∷ 0 ∷ 64 ∷ 189 ∷ 254 ∷ []

abbrev done : Pair milli
done = record answered { near = loop_round milli (some reply) 2 3 answered.near }

spoken-Reach : Reach milli spoken
spoken-Reach = next start (sends opening greeting 7 0)

datagram_on_wire : MayArrive milli datagram spoken.near
unfolding program
datagram_on_wire = inl (inl refl)

answered-Reach : Reach milli answered
answered-Reach = next spoken-Reach (other (hears (swap milli spoken) datagram 1 datagram_on_wire))

reply_on_wire : MayArrive milli reply answered.far
unfolding program
reply_on_wire = inl (inl refl)

done-Reach : Reach milli done
done-Reach = next answered-Reach (rounds answered (some reply) 2 3 reply_on_wire)

two_way_delivery_example :
    ((k : ℕ) × (answered.far.connection.receiver.messages ≡ take k answered.near.queued))
    × ((k : ℕ) × (answered.near.connection.receiver.messages ≡ take k answered.far.queued))
two_way_delivery_example = two_way_delivery milli answered-Reach

Reach-IsSound_example :
    IsSound milli done.near.connection.sender
    × (done.near.connection.sender.base ≤ done.far.connection.receiver.expected_seq)
    × (done.far.connection.receiver.expected_seq
        ≤ first_unsent milli done.near.connection.sender.send_buffer done.near.connection.sender)
Reach-IsSound_example = Reach-IsSound milli done-Reach

nothing_in_flight : done.near.connection.sender.unacked_packets ≡ []
unfolding program
nothing_in_flight = refl

nothing_waiting : done.near.connection.sender.send_buffer ≡ []
unfolding program
nothing_waiting = refl

settled_delivery_example : done.far.connection.receiver.messages ≡ done.near.queued
settled_delivery_example = settled_delivery milli done-Reach nothing_in_flight nothing_waiting

spoken_in_flight : 0 < length spoken.near.connection.sender.unacked_packets
unfolding program
spoken_in_flight = omega arith

abbrev speaker : Sender milli
speaker = spoken.near.connection.sender

check_timeouts-resends_example :
    let q' = check_timeouts milli 600 speaker in
    (info : Flight milli) × (lookup speaker.base speaker.unacked_packets ≡ some info)
    × (info.packet.seq_num ≡ speaker.base)
    × (q'.wire ≡ (
        if leb speaker.rto (600 - info.sent_time)
        then (transmit info.packet speaker.wire).1
        else speaker.wire))
    × (lookup speaker.base q'.unacked_packets
        ≡ some (
            if leb speaker.rto (600 - info.sent_time)
            then record {
              packet = (transmit info.packet speaker.wire).0;
              sent_time = 600;
              is_retransmitted = true;
            }
            else info))
check_timeouts-resends_example = check_timeouts-resends milli 600 spoken-Reach spoken_in_flight
