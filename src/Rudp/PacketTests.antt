-- ===== src/Rudp/PacketTests.antt =====
-- A packet and its datagram, and the theorems on them.
use rudp_agent_stack.Base.{ℕ, ◌≡◌, refl, some, [], ◌∷◌, ok, err, arith, set, nat_eq}
use rudp_agent_stack.Exceptions.{checksum_error}
use rudp_agent_stack.Bytes.{Bytes, IsBytes}
use rudp_agent_stack.Rudp.Packet.{RudpPacket, pack, unpack, checksum_of, calculate_checksum}
use rudp_agent_stack.Rudp.Packet.Checksum.{checksum_of-eq-closed_form, closed_form, word_sum}
use rudp_agent_stack.Rudp.Packet.RoundTrip.{IsSendable, unpack-pack}
use rudp_agent_stack.Rudp.Packet.Corruption.{unpack-set_ne}
use rudp_agent_stack.Rudp.Packet.Reading.{pack-unpack}

abbrev pub hello : RudpPacket
hello = record {
  seq_num = 0;
  ack_num = 0;
  flags = 4;
  rwnd = 0;
  checksum = 0;
  msg_id = some 7;
  offset = some 0;
  payload = 104 ∷ 105 ∷ 33 ∷ [];
}

abbrev hello_sent : RudpPacket
hello_sent = record hello { checksum = 35702 }

-- The datagram of `hello`.
abbrev pub datagram : Bytes
datagram =
    0 ∷ 0 ∷ 0 ∷ 0 ∷ 0 ∷ 0 ∷ 0 ∷ 0 ∷ 4 ∷ 0 ∷ 0 ∷ 139 ∷ 118 ∷ 0 ∷ 0 ∷ 0 ∷ 7 ∷ 0 ∷ 0 ∷ 0 ∷ 0 ∷ 104
    ∷ 105 ∷ 33 ∷ []

pack-hello : pack hello ≡ ok (datagram, hello_sent)
unfolding pack checksum_of
pack-hello = refl

unpack_hello : unpack datagram ≡ ok hello_sent
unfolding unpack checksum_of calculate_checksum
unpack_hello = refl

hello-IsSendable : IsSendable hello
hello-IsSendable = record {
  seq_fits = omega arith;
  ack_fits = omega arith;
  flags_fit = omega arith;
  rwnd_fits = omega arith;
  shape = omega arith;
}

unpack-pack_example :
    (bs : Bytes) × (c : ℕ) × (pack hello ≡ ok (bs, record hello { checksum = c }))
    × (unpack bs ≡ ok (record hello { checksum = c }))
unpack-pack_example = unpack-pack hello hello-IsSendable

datagram-IsBytes : IsBytes datagram
datagram-IsBytes = omega arith

pack-unpack_example : pack hello_sent ≡ ok (datagram, hello_sent)
pack-unpack_example = pack-unpack datagram hello_sent datagram-IsBytes unpack_hello

unpack-set_ne_example : unpack (set datagram 21 72) ≡ err checksum_error
unpack-set_ne_example =
    unpack-set_ne datagram hello_sent 21 72 datagram-IsBytes unpack_hello (omega arith)
      (omega arith) (omega arith)

checksum_of-eq-closed_form_example : checksum_of datagram ≡ closed_form (word_sum datagram)
checksum_of-eq-closed_form_example = checksum_of-eq-closed_form datagram
