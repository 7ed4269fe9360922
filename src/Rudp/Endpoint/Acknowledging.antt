-- ===== src/Rudp/Endpoint/Acknowledging.antt =====
-- The acknowledgments of an endpoint: packets without data that acknowledge no more than it received.
use rudp_agent_stack.Base.{ℕ, ◌≤◌, ◌≡◌, refl, subst, ok, err, arith, false, All, nat_eq}
use rudp_agent_stack.Exceptions.{Py}
use rudp_agent_stack.Bytes.{Bytes}
use rudp_agent_stack.Rudp.Packet.{
  RudpPacket, pack, pack_header, calculate_checksum, unpack, has_data,
}
use rudp_agent_stack.Rudp.Packet.RoundTrip.{IsSendable, unpack-pack}
use rudp_agent_stack.Rudp.Receiver.{Ack}
use rudp_agent_stack.Rudp.Sender.Stream.{bind_ok, header_fits}
use rudp_agent_stack.Rudp.Connection.{ack_packet, send_ack}
use rudp_agent_stack.Rudp.Endpoint.{sent_now}

-- What the datagram is read as: no data, and at most `n` acknowledged.
pub record Acknowledges (n : ℕ) (bs : Bytes) : Type 0 where
  pub packet : RudpPacket
  pub read : unpack bs ≡ ok packet
  pub no_data : has_data packet ≡ false
  pub at_most : packet.ack_num ≤ n

pub Acknowledges-wider : (m n : ℕ) (bs : Bytes) → m ≤ n → Acknowledges m bs → Acknowledges n bs
Acknowledges-wider m n bs h a = record {
  packet = a.packet;
  read = a.read;
  no_data = a.no_data;
  at_most = omega (arith, a.at_most);
}

ack_packet-IsSendable :
    (a : Ack) (bs : Bytes) (q : RudpPacket)
    → pack (ack_packet a) ≡ ok (bs, q)
    → IsSendable (ack_packet a)
unfolding pack calculate_checksum
ack_packet-IsSendable a bs q made =
    let (c, summed, _) = bind_ok (calculate_checksum (ack_packet a)) _ _ made in
    let (header, packed, _) = bind_ok (pack_header 0 a.ack_num a.flags a.rwnd 0) _ _ summed in
    let fits = header_fits 0 a.ack_num a.flags a.rwnd 0 header packed in
    record {
      seq_fits = fits.0;
      ack_fits = fits.1;
      flags_fit = fits.2;
      rwnd_fits = fits.3;
      shape = tt;
    }

packed-Acknowledges :
    (n : ℕ) (a : Ack) (bs : Bytes) (q : RudpPacket)
    → a.ack_num ≤ n
    → pack (ack_packet a) ≡ ok (bs, q)
    → Acknowledges n bs
unfolding has_data
packed-Acknowledges n a bs q h made =
    let (bs', c, made', read) = unpack-pack (ack_packet a) (ack_packet-IsSendable a bs q made) in
    let same : bs' ≡ bs = ground (arith, made, made') in
    record {
      packet = record (ack_packet a) { checksum = c };
      read = subst (λ w. unpack w ≡ ok (record (ack_packet a) { checksum = c })) same read;
      no_data = refl;
      at_most = h;
    }

pub send_ack-Acknowledges :
    (n : ℕ) (a : Ack) → a.ack_num ≤ n → All (Acknowledges n) (sent_now (send_ack a))
send_ack-Acknowledges n a h = go (pack (ack_packet a)) refl
  where
    go :
        (r : Py (Bytes × RudpPacket))
        → pack (ack_packet a) ≡ r
        → All (Acknowledges n) (sent_now (send_ack a))
    go (ok (bs, q)) e = rw e (packed-Acknowledges n a bs q h e, tt)
    go (err x) e = rw e tt
