-- ===== src/Envelope.antt =====
-- common/app_envelope.py: the header in front of every message of the agent.
pub mod MixedMode
pub mod RoundTrip
pub mod Stream
pub mod Reading
pub mod Framing
mod Tests
use rudp_agent_stack.Base.{
  ℕ, ◌+◌, ◌*◌, ◌/◌, ◌%◌, ◌^◌, Bool, true, false, ◌&&◌, not, Option, none, some, List, [], ◌∷◌, ◌++◌,
  ok, err, ◌>>=◌, ltb, ◌==◌, if◌then◌else◌, length,
}
use rudp_agent_stack.Constants.{protocol_version, max_payload_len, header_size}
use rudp_agent_stack.Exceptions.{
  Py, struct_error, value_error, invalid_version, payload_too_long, invalid_header_size,
}
use rudp_agent_stack.Bytes.{Bytes, fits, be32, read8, read32}

pub record AppHeader : Type 0 where
  pub version : ℕ
  pub opcode : ℕ
  pub flags : ℕ
  pub reserved : ℕ
  pub request_id : ℕ
  pub payload_len : ℕ

-- struct.pack("!BBBBII", …) with the reserved field 0
pub pack_app_header : ℕ → ℕ → ℕ → ℕ → ℕ → Py Bytes
pack_app_header version opcode flags request_id payload_len =
    if fits 8 version
      && (fits 8 opcode && (fits 8 flags && (fits 32 request_id && fits 32 payload_len)))
    then ok (version ∷ opcode ∷ flags ∷ 0 ∷ be32 request_id ++ be32 payload_len)
    else err struct_error

unfoldable pub encode_header : ℕ → ℕ → ℕ → ℕ → ℕ → Py Bytes
unfolding pack_app_header
encode_header version opcode flags request_id payload_len =
    if not (version == protocol_version)
    then err (value_error invalid_version)
    else if ltb max_payload_len payload_len
    then err (value_error payload_too_long)
    else pack_app_header version opcode flags request_id payload_len

-- struct.unpack("!BBBBII", …)
abbrev pub parse_app_header : Bytes → AppHeader
parse_app_header bs = record {
  version = read8 bs 0;
  opcode = read8 bs 1;
  flags = read8 bs 2;
  reserved = read8 bs 3;
  request_id = read32 bs 4;
  payload_len = read32 bs 8;
}

abbrev pub check_header : AppHeader → Py AppHeader
check_header h =
    if not (h.version == protocol_version)
    then err (value_error invalid_version)
    else if ltb max_payload_len h.payload_len
    then err (value_error payload_too_long)
    else ok h

unfoldable pub decode_header : Bytes → Py AppHeader
decode_header bs =
    if not (length bs == header_size)
    then err (value_error invalid_header_size)
    else check_header (parse_app_header bs)

-- request_id_override if it is not None
abbrev pub final_req_id : ℕ → Option ℕ → ℕ
final_req_id request_id none = request_id
final_req_id request_id (some override) = override

unfoldable pub encode_message : ℕ → ℕ → ℕ → Bytes → Option ℕ → Py Bytes
unfolding encode_header
encode_message opcode flags request_id payload override = do
  header ←
      encode_header protocol_version opcode flags (final_req_id request_id override)
        (length payload)
  ok (header ++ payload)
