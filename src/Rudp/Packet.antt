-- ===== src/Rudp/Packet.antt =====
-- common/rudp_packet.py: the packet, its checksum, `pack` and `unpack`.
pub mod Checksum
pub mod RoundTrip
pub mod Reading
pub mod Corruption
use rudp_agent_stack.Base.{
  ℕ, zero, suc, ◌+◌, ◌-◌, ◌*◌, ◌/◌, ◌%◌, ◌≤◌, bit_and, Bool, true, false, not, ◌||◌, ◌&&◌, Option,
  none, some, List, [], ◌∷◌, ◌++◌, Result, ok, err, ◌>>=◌, ltb, ◌==◌, if◌then◌else◌, length, drop,
}
use rudp_agent_stack.Base.Dict.{is_some}
use rudp_agent_stack.Constants.{
  flag_syn, flag_ack, flag_fin, flag_rst, fixed_header_size, reassembly_size,
}
use rudp_agent_stack.Exceptions.{
  Py, struct_error, checksum_error, value_error, packet_too_short, no_reassembly_fields,
}
use rudp_agent_stack.Bytes.{Bytes, fits, be16, be32, read8, read16, read32}

pub record RudpPacket : Type 0 where
  pub seq_num : ℕ
  pub ack_num : ℕ
  pub flags : ℕ
  pub rwnd : ℕ
  pub checksum : ℕ
  pub msg_id : Option ℕ
  pub offset : Option ℕ
  pub payload : Bytes

-- struct.pack("!IIBHH", …)
unfoldable pub pack_header : ℕ → ℕ → ℕ → ℕ → ℕ → Py Bytes
pack_header seq ack flags rwnd csum =
    if fits 32 seq && (fits 32 ack && (fits 8 flags && (fits 16 rwnd && fits 16 csum)))
    then ok (be32 seq ++ (be32 ack ++ (flags ∷ be16 rwnd ++ be16 csum)))
    else err struct_error

-- struct.pack("!II", …), for the packets that have both fields
unfoldable pub pack_reassembly : Option ℕ → Option ℕ → Py Bytes
pack_reassembly (some m) (some o) =
    if fits 32 m && fits 32 o then ok (be32 m ++ be32 o) else err struct_error
pack_reassembly (some m) none = ok []
pack_reassembly none o = ok []

-- Pad with a zero byte if the length is odd.
unfoldable pub pad_even : Bytes → Bytes
pad_even bs = if length bs % 2 == 1 then bs ++ 0 ∷ [] else bs

-- The loop over the 16-bit words; after the padding no byte stands alone.
unfoldable pub sum_words : ℕ → Bytes → ℕ
sum_words csum [] = csum
sum_words csum (a ∷ []) = csum
sum_words csum (a ∷ b ∷ rest) = sum_words (csum + (a * 256 + b)) rest

-- while (csum >> 16) > 0: csum = (csum & 0xFFFF) + (csum >> 16)
unfoldable pub add_carries : ℕ → ℕ → ℕ
add_carries zero csum = csum
add_carries (suc fuel) csum = elim (ltb 0 (csum / 65536)) [
  | true ↦ add_carries fuel (csum % 65536 + csum / 65536)
  | false ↦ csum
]

-- The checksum of the bytes of a packet. The sum itself is fuel enough for the carries.
unfoldable pub checksum_of : Bytes → ℕ
unfolding pad_even sum_words add_carries
checksum_of bs =
    let total = sum_words 0 (pad_even bs) in
    let csum = add_carries total total in
    let final = 65535 - csum % 65536 in if final == 0 then 65535 else final

unfoldable pub calculate_checksum : RudpPacket → Py ℕ
unfolding pack_header pack_reassembly
calculate_checksum p = do
  header ← pack_header p.seq_num p.ack_num p.flags p.rwnd 0
  reassembly ← pack_reassembly p.msg_id p.offset
  ok (checksum_of (header ++ (reassembly ++ p.payload)))

abbrev has_flag : RudpPacket → ℕ → Bool
has_flag p flag = not (bit_and p.flags flag == 0)

unfoldable pub is_syn : RudpPacket → Bool
is_syn p = has_flag p flag_syn

unfoldable pub is_ack : RudpPacket → Bool
is_ack p = has_flag p flag_ack

unfoldable pub is_fin : RudpPacket → Bool
is_fin p = has_flag p flag_fin

unfoldable pub is_rst : RudpPacket → Bool
is_rst p = has_flag p flag_rst

unfoldable pub has_data : RudpPacket → Bool
has_data p = not (length p.payload == 0) || (is_some p.msg_id && is_some p.offset)

-- `pack` stores the checksum in the packet; the packet after the call comes back beside the bytes.
unfoldable pub pack : RudpPacket → Py (Bytes × RudpPacket)
unfolding calculate_checksum
pack p = do
  csum ← calculate_checksum p
  header ← pack_header p.seq_num p.ack_num p.flags p.rwnd csum
  reassembly ← pack_reassembly p.msg_id p.offset
  ok (header ++ (reassembly ++ p.payload), record p { checksum = csum })

pub verify : RudpPacket → Py RudpPacket
verify p = do csum ← calculate_checksum p; if p.checksum == csum then ok p else err checksum_error

-- The packet that the bytes stand for, before the checks.
unfoldable pub parse_fixed : Bytes → RudpPacket
parse_fixed bs = record {
  seq_num = read32 bs 0;
  ack_num = read32 bs 4;
  flags = read8 bs 8;
  rwnd = read16 bs 9;
  checksum = read16 bs 11;
  msg_id = none;
  offset = none;
  payload = [];
}

unfoldable pub parse_data : Bytes → RudpPacket
unfolding parse_fixed
parse_data bs = record (parse_fixed bs) {
  msg_id = some (read32 bs 13);
  offset = some (read32 bs 17);
  payload = drop (fixed_header_size + reassembly_size) bs;
}

unfoldable pub unpack : Bytes → Py RudpPacket
unfolding verify parse_data
unpack bs =
    if ltb (length bs) fixed_header_size
    then err (value_error packet_too_short)
    else if ltb fixed_header_size (length bs)
    then (if ltb (length bs) (fixed_header_size + reassembly_size)
        then err (value_error no_reassembly_fields)
        else verify (parse_data bs))
    else verify (parse_fixed bs)
