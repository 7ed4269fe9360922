-- ===== src/Rudp/Sender/Stream.antt =====
-- The sender tells the truth: whatever it puts on the wire is a packed segment of its stream.
use rudp_agent_stack.Base.{
  ℕ, ◌-◌, ◌≤◌, ◌<◌, ◌^◌, ◌≡◌, refl, sym, ap₂, ◌∙◌, subst, some, List, ◌++◌, ok, err, ◌>>=◌, arith,
  nat_eq, get_elem?, get_elem?-append, get_elem?-take, take, drop, take_wider,
}
use rudp_agent_stack.Exceptions.{Py}
use rudp_agent_stack.Bytes.{Bytes}
use rudp_agent_stack.Rudp.Packet.{
  RudpPacket, pack, pack_header, pack_reassembly, calculate_checksum, unpack, is_fin,
}
use rudp_agent_stack.Rudp.Packet.RoundTrip.{IsSendable, unpack-pack}
use rudp_agent_stack.Rudp.Message.{Piece, piece_of}

-- The segment is part of the stream, and carries both reassembly fields.
pub record IsSegment (pieces : List Piece) (p : RudpPacket) : Type 0 where
  pub carries : get_elem? pieces p.seq_num ≡ some (piece_of p)
  pub msg : ℕ
  pub has_msg : p.msg_id ≡ some msg
  pub at : ℕ
  pub has_offset : p.offset ≡ some at
  pub no_ack : p.ack_num ≡ 0

-- A datagram that a segment of the stream was packed to.
pub record IsDatagram (pieces : List Piece) (bs : Bytes) : Type 0 where
  pub packet : RudpPacket
  pub packed : RudpPacket
  pub segment : IsSegment pieces packet
  pub made : pack packet ≡ ok (bs, packed)

pub header_fits :
    (seq ack flags rwnd csum : ℕ) (bs : Bytes)
    → pack_header seq ack flags rwnd csum ≡ ok bs
    → (seq < 2 ^ 32) × (ack < 2 ^ 32) × (flags < 2 ^ 8) × (rwnd < 2 ^ 16)
unfolding pack_header
header_fits seq ack flags rwnd csum bs h = ground arith

reassembly_fits :
    (m o : ℕ) (bs : Bytes) → pack_reassembly (some m) (some o) ≡ ok bs → (m < 2 ^ 32) × (o < 2 ^ 32)
unfolding pack_reassembly
reassembly_fits m o bs h = ground arith

pub bind_ok :
    {A B : Type 0} (m : Py A) (k : A → Py B) (b : B)
    → (m >>= k) ≡ ok b
    → (a : A) × (m ≡ ok a) × (k a ≡ ok b)
bind_ok (ok a) k b h = (a, refl, h)
bind_ok (err e) k b h = absurd (ground arith)

-- What packs has numbers that fit.
packs-IsSendable :
    (pieces : List Piece) (p : RudpPacket) (bs : Bytes) (q : RudpPacket)
    → IsSegment pieces p
    → pack p ≡ ok (bs, q)
    → IsSendable p
unfolding pack calculate_checksum
packs-IsSendable pieces p bs q h made =
    let (c, summed, _) = bind_ok (calculate_checksum p) _ _ made in
    let (header, packed_header, rest) =
      bind_ok (pack_header p.seq_num p.ack_num p.flags p.rwnd 0) _ _ summed in
    let (reassembly, packed_rest, _) = bind_ok (pack_reassembly p.msg_id p.offset) _ _ rest in
    let fits = header_fits p.seq_num p.ack_num p.flags p.rwnd 0 header packed_header in
    let tagged : pack_reassembly (some h.msg) (some h.at) ≡ ok reassembly =
      ap₂ pack_reassembly (sym h.has_msg) (sym h.has_offset) ∙ packed_rest in
    record {
      seq_fits = fits.0;
      ack_fits = fits.1;
      flags_fit = fits.2;
      rwnd_fits = fits.3;
      shape = rw (h.has_msg, h.has_offset) (reassembly_fits h.msg h.at reassembly tagged);
    }

-- The receiver reads from such a datagram a segment of the stream.
pub unpack-IsDatagram :
    (pieces : List Piece) (bs : Bytes)
    → IsDatagram pieces bs
    → (p : RudpPacket) × (unpack bs ≡ ok p) × IsSegment pieces p
unfolding piece_of is_fin
unpack-IsDatagram pieces bs h =
    let sendable = packs-IsSendable pieces h.packet bs h.packed h.segment h.made in
    let (bs', c, made', read) = unpack-pack h.packet sendable in
    let same : bs' ≡ bs = ground (arith, h.made, made') in
    (
      record (h.packet) { checksum = c },
      subst (λ w. unpack w ≡ ok (record (h.packet) { checksum = c })) same read,
      record {
        carries = h.segment.carries;
        msg = h.segment.msg;
        has_msg = h.segment.has_msg;
        at = h.segment.at;
        has_offset = h.segment.has_offset;
        no_ack = h.segment.no_ack;
      },
    )

pub IsSegment-append :
    (pieces more : List Piece) (p : RudpPacket) → IsSegment pieces p → IsSegment (pieces ++ more) p
IsSegment-append pieces more p h = record {
  carries = get_elem?-append pieces more p.seq_num (piece_of p) h.carries;
  msg = h.msg;
  has_msg = h.has_msg;
  at = h.at;
  has_offset = h.has_offset;
  no_ack = h.no_ack;
}

pub IsDatagram-append :
    (pieces more : List Piece) (bs : Bytes) → IsDatagram pieces bs → IsDatagram (pieces ++ more) bs
IsDatagram-append pieces more bs h = record {
  packet = h.packet;
  packed = h.packed;
  segment = IsSegment-append pieces more h.packet h.segment;
  made = h.made;
}

-- Among the first pieces are those below, and more of them when the first ones are more.
pub IsSegment-take :
    (pieces : List Piece) (n : ℕ) (p : RudpPacket)
    → p.seq_num < n
    → IsSegment pieces p
    → IsSegment (take n pieces) p
IsSegment-take pieces n p below h = record {
  carries = get_elem?-take pieces p.seq_num n below ∙ h.carries;
  msg = h.msg;
  has_msg = h.has_msg;
  at = h.at;
  has_offset = h.has_offset;
  no_ack = h.no_ack;
}

pub IsSegment-wider :
    (pieces : List Piece) (m n : ℕ) (p : RudpPacket)
    → m ≤ n
    → IsSegment (take m pieces) p
    → IsSegment (take n pieces) p
IsSegment-wider pieces m n p h k =
    rw (take_wider pieces m n h)
      (IsSegment-append (take m pieces) (take (n - m) (drop m pieces)) p k)

pub IsDatagram-wider :
    (pieces : List Piece) (m n : ℕ) (bs : Bytes)
    → m ≤ n
    → IsDatagram (take m pieces) bs
    → IsDatagram (take n pieces) bs
IsDatagram-wider pieces m n bs h k =
    rw (take_wider pieces m n h)
      (IsDatagram-append (take m pieces) (take (n - m) (drop m pieces)) bs k)
