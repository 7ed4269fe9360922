-- ===== src/Agent/Dispatcher.antt =====
-- server/agent/dispatcher.py: the routing of a request, and the response to what its handler raises.
use rudp_agent_stack.Base.{
  ℕ, String, ◌||◌, Option, none, some, ok, err, Result, ◌==◌, if◌then◌else◌,
}
use rudp_agent_stack.Bytes.{Bytes}
use rudp_agent_stack.Constants.{
  op_put_meta, op_put_chunk, op_get, op_append, op_list, op_task_search_report,
  op_task_filter_lines, op_task_hash_and_store,
}
use rudp_agent_stack.Rudp.Float.{Float}
use rudp_agent_stack.Envelope.{AppHeader}
use rudp_agent_stack.Agent.Text.{◌<>◌, decimal, occurs}
use rudp_agent_stack.Agent.Values.{null, object, Python}
use rudp_agent_stack.Agent.Paths.{Error, file_not_found, value_error, other_error, FilePath}
use rudp_agent_stack.Agent.Action.{Action}
use rudp_agent_stack.Agent.Response.{
  build_response, build_error_response, status_ok, status_bad_request, status_forbidden,
  status_not_found, status_payload_too_large, status_internal_server_error,
}
use rudp_agent_stack.Agent.Handlers.{Agent, Surroundings, Answer, answer, response}
use rudp_agent_stack.Agent.Handlers.Files.{handle_get, handle_append, handle_list}
use rudp_agent_stack.Agent.Handlers.Uploads.{handle_put_meta, handle_put_chunk}
use rudp_agent_stack.Agent.Handlers.Tasks.{handle_task}

-- The opcodes that have a handler.
pub data Handler : Type 0 where
  on_list on_put_meta on_put_chunk on_get on_append on_task : Handler

-- self.handlers.get(opcode)
unfoldable pub handler_for : ℕ → Option Handler
handler_for opcode =
    if opcode == op_list
    then some on_list
    else if opcode == op_put_meta
    then some on_put_meta
    else if opcode == op_put_chunk
    then some on_put_chunk
    else if opcode == op_get
    then some on_get
    else if opcode == op_append
    then some on_append
    else if (opcode == op_task_search_report)
        || ((opcode == op_task_filter_lines) || (opcode == op_task_hash_and_store))
    then some on_task
    else none

module _ (f : Float) (py : Python) (root : FilePath) where
  abbrev pub run_handler :
      Surroundings f → AppHeader → Bytes → Option String → Handler → Action (Agent f) Answer
  run_handler now header payload client_address on_list = handle_list f py root now
  run_handler now header payload client_address on_put_meta = handle_put_meta f py root now payload
  run_handler now header payload client_address on_put_chunk =
      handle_put_chunk f py root now payload
  run_handler now header payload client_address on_get = handle_get f py root payload
  run_handler now header payload client_address on_append = handle_append f py root payload
  run_handler now header payload client_address on_task =
      handle_task f py root now header.request_id header.opcode client_address payload

  -- The status for the text of a ValueError.
  unfoldable pub status_of : String → ℕ
  status_of message =
      let msg = py.lower message in
      if occurs "traversal" msg || occurs "not allowed" msg
      then status_forbidden
      else if occurs "too large" msg || occurs "exceeds" msg
      then status_payload_too_large
      else status_bad_request

  unfoldable pub error_response : AppHeader → Error → Result Error Bytes
  error_response header (file_not_found message) =
      build_error_response py header.opcode header.request_id status_not_found message
  error_response header (value_error message) =
      build_error_response py header.opcode header.request_id (status_of message) message
  error_response header (other_error name) =
      build_error_response py header.opcode header.request_id status_internal_server_error
        "Internal Server Error"

  -- A response that cannot be built is one of the errors that are answered.
  abbrev pub or_error_response : AppHeader → Result Error Bytes → Result Error Bytes
  or_error_response header (ok bs) = ok bs
  or_error_response header (err e) = error_response header e

  abbrev pub respond : AppHeader → Result Error Answer → Result Error Bytes
  respond header (ok (response bs)) = ok bs
  respond header (ok (answer fields binary)) =
      or_error_response header
        (build_response py header.opcode header.request_id status_ok (object fields) null binary)
  respond header (err e) = error_response header e

  abbrev pub responded : AppHeader → Agent f × Result Error Answer → Agent f × Result Error Bytes
  responded header (s, r) = (s, respond header r)

  abbrev pub dispatch_to :
      Surroundings f → AppHeader → Bytes → Option String → Option Handler → Action (Agent f) Bytes
  dispatch_to now header payload client_address none s = (
    s,
    build_error_response py header.opcode header.request_id status_bad_request
        ("Unknown Opcode: " <> decimal header.opcode),
  )
  dispatch_to now header payload client_address (some handler) s =
      responded header (run_handler now header payload client_address handler s)

  unfoldable pub dispatch :
      Surroundings f → AppHeader → Bytes → Option String → Action (Agent f) Bytes
  dispatch now header payload client_address =
      dispatch_to now header payload client_address (handler_for header.opcode)
