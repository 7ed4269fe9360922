-- ===== src/Exceptions.antt =====
-- The exceptions that the modelled code raises. The text of a `ValueError` is kept as its cause.
use rudp_agent_stack.Base.{Result}

pub data Cause : Type 0 where
  packet_too_short no_reassembly_fields malformed_address session_not_found invalid_version
        payload_too_long invalid_header_size no_metadata_length payload_incomplete invalid_metadata
        overlapping_chunk out_of_order_chunk :
      Cause

pub data Exception : Type 0 where
  struct_error : Exception
  checksum_error : Exception
  connection_error : Exception
  value_error : Cause → Exception

-- A call that returns or raises.
abbrev pub Py {ℓ} : Type ℓ → Type ℓ
Py A = Result Exception A
