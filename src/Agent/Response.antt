-- ===== src/Agent/Response.antt =====
-- server/agent/response_builder.py and common/errors.py: the answers of the agent.
use rudp_agent_stack.Base.{ℕ, String, Option, none, some, Result, ok, err, length}
use rudp_agent_stack.Bytes.{Bytes}
use rudp_agent_stack.Constants.{max_payload_len}
use rudp_agent_stack.Exceptions as Exceptions
use rudp_agent_stack.Exceptions.{Py, Exception, payload_too_long}
use rudp_agent_stack.Envelope.{encode_message}
use rudp_agent_stack.Envelope.MixedMode.{Json, encode}
use rudp_agent_stack.Agent.Text.{◌<>◌, decimal}
use rudp_agent_stack.Agent.Values.{
  Value, null, int, text, object, end_object, field, Loaded, loaded, not_utf8, not_json, Python,
}
use rudp_agent_stack.Agent.Paths.{Error, value_error, other_error}

abbrev pub status_ok : ℕ
status_ok = 200

abbrev pub status_bad_request : ℕ
status_bad_request = 400

abbrev pub status_forbidden : ℕ
status_forbidden = 403

abbrev pub status_not_found : ℕ
status_not_found = 404

abbrev pub status_payload_too_large : ℕ
status_payload_too_large = 413

abbrev pub status_internal_server_error : ℕ
status_internal_server_error = 500

abbrev pub value_of : Loaded → Option Value
value_of (loaded v) = some v
value_of (not_utf8 t) = none
value_of (not_json t) = none

-- JSON as the framing of mixed payloads takes it.
abbrev pub json_of : Python → Json
json_of py = record { Metadata = Value; dumps = py.dumps; loads = λ b. value_of (py.loads b) }

-- What `encode_message` raises for a payload of a length, with its text.
abbrev pub envelope_error : ℕ → Exception → Error
envelope_error n (Exceptions.value_error payload_too_long) =
    value_error ("Payload length " <> (decimal n <> (" exceeds max " <> decimal max_payload_len)))
envelope_error n e = other_error "error"

abbrev pub raised : ℕ → Py Bytes → Result Error Bytes
raised n (ok bs) = ok bs
raised n (err e) = err (envelope_error n e)

abbrev pub payload_value : ℕ → Value → Value → Value
payload_value status error data_ =
    object (field "status" (int status) (field "error" error (field "data" data_ end_object)))

module _ (py : Python) where
  -- The payload, or what replaces it where it cannot be encoded.
  abbrev pub or_failure : Py Bytes → Bytes
  or_failure (ok payload) = payload
  or_failure (err e) =
      py.dumps
        (payload_value status_internal_server_error (text "Response serialization failed") null)

  abbrev pub response_payload : Value → Option Bytes → Bytes
  response_payload v (some binary) = or_failure (encode (json_of py) v binary)
  response_payload v none = py.dumps v

  unfoldable pub build_response : ℕ → ℕ → ℕ → Value → Value → Option Bytes → Result Error Bytes
  build_response opcode request_id status data_ error_message binary_data =
      let payload = response_payload (payload_value status error_message data_) binary_data in
      raised (length payload) (encode_message opcode 0 request_id payload none)

  unfoldable pub build_error_response : ℕ → ℕ → ℕ → String → Result Error Bytes
  unfolding build_response
  build_error_response opcode request_id error_code message =
      build_response opcode request_id error_code null (text message) none
