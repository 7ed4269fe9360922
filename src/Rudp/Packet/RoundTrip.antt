-- ===== src/Rudp/Packet/RoundTrip.antt =====
-- `pack` and `unpack` are inverse to one another on the packets that the protocol sends.
use rudp_agent_stack.Base.{
  ℕ, ◌^◌, ◌≤◌, ◌<◌, ◌≡◌, refl, ap, ◌∙◌, Option, none, some, [], ◌∷◌, ◌++◌, ok, arith, length,
}
use rudp_agent_stack.Bytes.{Bytes, be16, be32, read16, read32}
use rudp_agent_stack.Rudp.Packet.Checksum.{checksum_of-eq-closed_form}
use rudp_agent_stack.Rudp.Packet.{
  RudpPacket, pack_header, pack_reassembly, calculate_checksum, checksum_of, pack, unpack, verify,
  parse_fixed, parse_data,
}

pub pack_header_ok :
    (seq ack flags rwnd csum : ℕ)
    → seq < 2 ^ 32
    → ack < 2 ^ 32
    → flags < 2 ^ 8
    → rwnd < 2 ^ 16
    → csum < 2 ^ 16
    → pack_header seq ack flags rwnd csum
      ≡ ok (be32 seq ++ (be32 ack ++ (flags ∷ be16 rwnd ++ be16 csum)))
unfolding pack_header
pack_header_ok seq ack flags rwnd csum h1 h2 h3 h4 h5 = ground arith

pub checksum_of-lt : (bs : Bytes) → checksum_of bs < 2 ^ 16
checksum_of-lt bs = rw checksum_of-eq-closed_form (ground arith)

-- The two or no reassembly fields that a packet may have on the wire.
abbrev pub Shape : Option ℕ → Option ℕ → Bytes → Type 0
Shape (some m) (some o) payload = (m < 2 ^ 32) × (o < 2 ^ 32)
Shape none none [] = Unit
Shape _ _ _ = ⊥

-- A packet whose numbers fit their fields; one without reassembly fields has no payload.
pub record IsSendable (p : RudpPacket) : Type 0 where
  pub seq_fits : p.seq_num < 2 ^ 32
  pub ack_fits : p.ack_num < 2 ^ 32
  pub flags_fit : p.flags < 2 ^ 8
  pub rwnd_fits : p.rwnd < 2 ^ 16
  pub shape : Shape p.msg_id p.offset p.payload

be32_read : (v : ℕ) → v < 2 ^ 32 → read32 (be32 v) 0 ≡ v
be32_read v h = omega arith

be16_read : (v : ℕ) → v < 2 ^ 16 → read16 (be16 v) 0 ≡ v
be16_read v h = omega arith

abbrev pub sent : RudpPacket → ℕ → RudpPacket
sent p c = record p { checksum = c }

-- The bytes of a packet with the given checksum.
abbrev pub header_bytes : RudpPacket → ℕ → Bytes
header_bytes p c = be32 p.seq_num ++ (be32 p.ack_num ++ (p.flags ∷ be16 p.rwnd ++ be16 c))

abbrev pub reassembly_of : Option ℕ → Option ℕ → Bytes
reassembly_of (some m) (some o) = be32 m ++ be32 o
reassembly_of (some m) none = []
reassembly_of none o = []

abbrev pub wire_bytes : RudpPacket → ℕ → Bytes
wire_bytes p c = header_bytes p c ++ (reassembly_of p.msg_id p.offset ++ p.payload)

abbrev pub own_checksum : RudpPacket → ℕ
own_checksum p = checksum_of (wire_bytes p 0)

pack_reassembly-Shape :
    (m o : Option ℕ) (payload : Bytes)
    → Shape m o payload
    → pack_reassembly m o ≡ ok (reassembly_of m o)
unfolding pack_reassembly
pack_reassembly-Shape (some m) (some o) payload h = ground arith
pack_reassembly-Shape (some m) none payload h = absurd h
pack_reassembly-Shape none (some o) payload h = absurd h
pack_reassembly-Shape none none payload h = refl

module _ (p : RudpPacket) (h : IsSendable p) where
  header_ok :
      (c : ℕ)
      → c < 2 ^ 16
      → pack_header p.seq_num p.ack_num p.flags p.rwnd c ≡ ok (header_bytes p c)
  header_ok c fits =
      pack_header_ok p.seq_num p.ack_num p.flags p.rwnd c h.seq_fits h.ack_fits h.flags_fit
        h.rwnd_fits fits

  pub calculate_checksum_ok : calculate_checksum p ≡ ok (own_checksum p)
  unfolding calculate_checksum
  calculate_checksum_ok =
      rw (header_ok 0 (omega arith), pack_reassembly-Shape p.msg_id p.offset p.payload h.shape)

  pub pack_ok : pack p ≡ ok (wire_bytes p (own_checksum p), sent p (own_checksum p))
  unfolding pack
  pack_ok = rw (
    calculate_checksum_ok,
    header_ok (own_checksum p) (checksum_of-lt (wire_bytes p 0)),
    pack_reassembly-Shape p.msg_id p.offset p.payload h.shape,
  )

sent-IsSendable : (p : RudpPacket) (c : ℕ) → IsSendable p → IsSendable (sent p c)
sent-IsSendable p c h = record {
  seq_fits = h.seq_fits;
  ack_fits = h.ack_fits;
  flags_fit = h.flags_fit;
  rwnd_fits = h.rwnd_fits;
  shape = h.shape;
}

pub verify-sent :
    (p : RudpPacket)
    → IsSendable p
    → verify (sent p (own_checksum p)) ≡ ok (sent p (own_checksum p))
unfolding verify
verify-sent p h =
    rw (calculate_checksum_ok (sent p (own_checksum p)) (sent-IsSendable p (own_checksum p) h))
      (ground arith)

parse_packed_data :
    (seq ack flags rwnd csum m o : ℕ) (payload : Bytes)
    → seq < 2 ^ 32
    → ack < 2 ^ 32
    → rwnd < 2 ^ 16
    → csum < 2 ^ 16
    → m < 2 ^ 32
    → o < 2 ^ 32
    → parse_data (
        (be32 seq ++ (be32 ack ++ (flags ∷ be16 rwnd ++ be16 csum)))
        ++ ((be32 m ++ be32 o) ++ payload))
      ≡ record {
        seq_num = seq;
        ack_num = ack;
        flags = flags;
        rwnd = rwnd;
        checksum = csum;
        msg_id = some m;
        offset = some o;
        payload = payload;
      }
unfolding parse_data
parse_packed_data seq ack flags rwnd csum m o payload h1 h2 h3 h4 h5 h6 = ground (
  arith,
  be32_read seq h1,
  be32_read ack h2,
  be16_read rwnd h3,
  be16_read csum h4,
  be32_read m h5,
  be32_read o h6,
)

parse_packed_fixed :
    (seq ack flags rwnd csum : ℕ)
    → seq < 2 ^ 32
    → ack < 2 ^ 32
    → rwnd < 2 ^ 16
    → csum < 2 ^ 16
    → parse_fixed ((be32 seq ++ (be32 ack ++ (flags ∷ be16 rwnd ++ be16 csum))) ++ []) ≡ record {
      seq_num = seq;
      ack_num = ack;
      flags = flags;
      rwnd = rwnd;
      checksum = csum;
      msg_id = none;
      offset = none;
      payload = [];
    }
unfolding parse_fixed
parse_packed_fixed seq ack flags rwnd csum h1 h2 h3 h4 =
    ground (arith, be32_read seq h1, be32_read ack h2, be16_read rwnd h3, be16_read csum h4)

-- With enough bytes `unpack` is the parse and the check of the sum.
pub unpack_data : (bs : Bytes) → 21 ≤ length bs → unpack bs ≡ verify (parse_data bs)
unfolding unpack
unpack_data bs h = ground arith

pub unpack_fixed : (bs : Bytes) → length bs ≡ 13 → unpack bs ≡ verify (parse_fixed bs)
unfolding unpack
unpack_fixed bs h = ground arith

parse_wire :
    (seq ack flags rwnd old c : ℕ) (m o : Option ℕ) (payload : Bytes)
    → let p : RudpPacket = record {
      seq_num = seq;
      ack_num = ack;
      flags = flags;
      rwnd = rwnd;
      checksum = old;
      msg_id = m;
      offset = o;
      payload = payload;
    } in
      IsSendable p → c < 2 ^ 16 → unpack (wire_bytes p c) ≡ verify (sent p c)
parse_wire seq ack flags rwnd old c (some m) (some o) payload h fits =
    unpack_data _ (omega arith)
    ∙ ap verify (
        parse_packed_data seq ack flags rwnd c m o payload h.seq_fits h.ack_fits h.rwnd_fits fits
          h.shape.0 h.shape.1)
parse_wire seq ack flags rwnd old c (some m) none payload h fits = absurd h.shape
parse_wire seq ack flags rwnd old c none (some o) payload h fits = absurd h.shape
parse_wire seq ack flags rwnd old c none none [] h fits =
    unpack_fixed _ refl
    ∙ ap verify (parse_packed_fixed seq ack flags rwnd c h.seq_fits h.ack_fits h.rwnd_fits fits)
parse_wire seq ack flags rwnd old c none none (b ∷ payload) h fits = absurd h.shape

-- A packet whose fields fit the header, and that has a message id and an offset or else no payload,
-- packs, and unpacking the bytes gives it back with the checksum that packing stored in it.
pub unpack-pack :
    (p : RudpPacket)
    → IsSendable p
    → (bs : Bytes) × (c : ℕ) × (pack p ≡ ok (bs, record p { checksum = c }))
      × (unpack bs ≡ ok (record p { checksum = c }))
unpack-pack p h = (
  wire_bytes p c,
  c,
  pack_ok p h,
  parse_wire p.seq_num p.ack_num p.flags p.rwnd p.checksum c p.msg_id p.offset p.payload h
        (checksum_of-lt (wire_bytes p 0))
      ∙ verify-sent p h,
)
  where
    c : ℕ
    c = own_checksum p
