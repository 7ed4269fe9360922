-- ===== src/Client.antt =====
-- client/agent_client.py: one request with its retries. Waiting between the retries is left out.
pub mod Tcp
pub mod Rudp
pub mod Answered
pub mod Retries
pub mod Repeats
mod Tests
use rudp_agent_stack.Base.{
  ℕ, zero, suc, ◌+◌, Bool, true, false, Option, none, some, List, [], ◌∷◌, Result, ok, err, ltb,
  leb, if◌then◌else◌, length,
}
use rudp_agent_stack.Bytes.{Bytes}
use rudp_agent_stack.Exceptions.{Py, Exception, struct_error}
use rudp_agent_stack.Envelope.{encode_message, final_req_id}
use rudp_agent_stack.Envelope.MixedMode.{encode, decode}
use rudp_agent_stack.Agent.Values.{
  Value, int, object, Fields, end_object, get_or, Loaded, loaded, not_utf8, not_json, Python,
}
use rudp_agent_stack.Agent.Response.{json_of}

pub data Encoding : Type 0 where
  json mixed : Encoding

-- Absent binary data is the empty list, as the encoder treats them alike.
pub record ClientRequestSpec : Type 0 where
  pub opcode : ℕ
  pub meta : Fields
  pub binary : Bytes
  pub encoding_mode : Encoding

pub record Response : Type 0 where
  pub status : Value
  pub resp_meta : Fields
  pub resp_binary : Option Bytes

-- What an attempt raises: an error that the loop catches, or another.
pub data Failure : Type 0 where
  retryable raised : Failure

abbrev pub failure_of : Exception → Failure
failure_of struct_error = raised
failure_of e = retryable

-- A `get` on what is no dictionary raises an AttributeError.
abbrev pub response_of : Option Bytes → Value → Result Failure Response
response_of bin (object d) =
    ok (record { status = get_or "status" (int 200) d; resp_meta = d; resp_binary = bin })
response_of bin v = err raised

abbrev no_json : Bytes → Result Failure Response
no_json [] = ok (record { status = int 200; resp_meta = end_object; resp_binary = none })
no_json (b ∷ bs) = err retryable

abbrev pub of_loaded : Bytes → Loaded → Result Failure Response
of_loaded payload (loaded v) = response_of none v
of_loaded payload (not_utf8 t) = err retryable
of_loaded payload (not_json t) = no_json payload

abbrev pub of_mixed : Python → Bytes → Py (Value × Bytes) → Result Failure Response
of_mixed py payload (ok (v, bin)) = response_of (some bin) v
of_mixed py payload (err e) = of_loaded payload (py.loads payload)

-- The status-aware decoding.
unfoldable pub decode_payload : Python → Bytes → Result Failure Response
decode_payload py payload =
    if leb 4 (length payload)
    then of_mixed py payload (decode (json_of py) payload)
    else of_loaded payload (py.loads payload)

unfoldable pub encode_payload : Python → ClientRequestSpec → Py Bytes
encode_payload py spec = by_mode spec.encoding_mode
  where
    by_mode : Encoding → Py Bytes
    by_mode json = ok (py.dumps (object spec.meta))
    by_mode mixed = encode (json_of py) (object spec.meta) spec.binary

abbrev pub max_retries : ℕ
max_retries = 5

-- How a request ends without a response.
pub data Ended : Type 0 where
  max_retries_exceeded failed : Ended

abbrev pub or_again :
    {T : Type 0}
    → T × Result Failure Response
    → (T → T × Result Ended Response)
    → T × Result Ended Response
or_again (s, ok r) again = (s, ok r)
or_again (s, err raised) again = (s, err failed)
or_again (s, err retryable) again = again s

-- The loop with `left` attempts to go; `recover` is what follows an error that is caught.
unfoldable pub send_loop :
    {T : Type 0} → (T → T × Result Failure Response) → (T → T) → ℕ → T → T × Result Ended Response
send_loop attempt recover zero s = (s, err max_retries_exceeded)
send_loop attempt recover (suc left) s =
    or_again (attempt s) (λ t. send_loop attempt recover left (recover t))

pub record AgentClient (T : Type 0) : Type 0 where
  pub transport : T
  pub current_id : ℕ
  pub active_override : Option ℕ

module _ {T : Type 0} (py : Python) (attempt : ℕ → Py Bytes → T → T × Result Failure Response)
    (recover : T → T) where
  abbrev pub with_transport :
      AgentClient T → T × Result Ended Response → AgentClient T × Result Ended Response
  with_transport c (t, r) = (record c { transport = t }, r)

  -- The override is taken once, and the id of the request counts up.
  abbrev pub taken : AgentClient T → AgentClient T
  taken c = record c { active_override = none; current_id = c.current_id + 1 }

  abbrev pub send_payload :
      ClientRequestSpec → Py Bytes → AgentClient T → AgentClient T × Result Ended Response
  send_payload spec (err e) c = (c, err failed)
  send_payload spec (ok payload) c =
      let id = c.current_id + 1 in
      with_transport (taken c) (
        send_loop
          (attempt (final_req_id id c.active_override)
            (encode_message spec.opcode 0 id payload c.active_override))
          recover (suc max_retries) c.transport)

  unfoldable pub send_request_spec :
      ClientRequestSpec → AgentClient T → AgentClient T × Result Ended Response
  send_request_spec spec c = send_payload spec (encode_payload py spec) c
