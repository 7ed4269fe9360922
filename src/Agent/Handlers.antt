-- ===== src/Agent/Handlers.antt =====
-- server/agent/handlers: the state of the agent, and what the handlers share.
pub mod Files
pub mod Uploads
pub mod Tasks
use rudp_agent_stack.Base.{
  ℕ, ◌+◌, String, Bool, Option, none, some, List, [], ok, err, Result, length,
}
use rudp_agent_stack.Bytes.{Bytes, read32}
use rudp_agent_stack.Constants.{meta_len_size}
use rudp_agent_stack.Exceptions as Exceptions
use rudp_agent_stack.Exceptions.{Py, Exception, no_metadata_length, payload_incomplete}
use rudp_agent_stack.Rudp.Float.{Float}
use rudp_agent_stack.Upload.{UploadSessionManager}
use rudp_agent_stack.Idempotency.{IdempotencyCache}
use rudp_agent_stack.Base.{take, drop}
use rudp_agent_stack.Envelope.MixedMode.{decode}
use rudp_agent_stack.Agent.Text.{◌<>◌, decimal}
use rudp_agent_stack.Agent.Values.{
  Value, object, Fields, Loaded, loaded, not_utf8, not_json, Python,
}
use rudp_agent_stack.Agent.Paths.{Error, value_error, other_error, FilePath}
use rudp_agent_stack.Agent.Action.{Action, continue}
use rudp_agent_stack.Agent.Disk.{Disk}
use rudp_agent_stack.Agent.Response.{json_of}

-- What a handler returns: the data of a response, with the binary content that the dispatcher takes
-- out of it, or the whole response.
pub data Answer : Type 0 where
  answer : Fields → Option Bytes → Answer
  response : Bytes → Answer

-- What the surroundings of a request give: the clock when the server looks into its cache, when the
-- handler runs, when a task is cached and when the response is; a new upload id; the working directory
-- of the process; and the modification times of the files.
module _ (f : Float) where
  pub record Surroundings : Type 0 where
    pub looked_up_at : f.F
    pub handled_at : f.F
    pub task_cached_at : f.F
    pub cached_at : f.F
    pub upload_id : String
    pub working_directory : FilePath
    pub mtime : FilePath → Value

  pub record Agent : Type 0 where
    pub disk : Disk
    pub session_manager : UploadSessionManager f
    pub idempotency_cache : IdempotencyCache f

  abbrev pub put_disk {κ} : {A : Type κ} → Agent → Disk × Result Error A → Agent × Result Error A
  put_disk s (d, r) = (record s { disk = d }, r)

  -- A call that touches the file system only.
  abbrev pub on_disk {κ} : {A : Type κ} → Action Disk A → Action Agent A
  on_disk m s = put_disk s (m s.disk)

-- The data of a JSON payload must be an object: its `get` is called.
abbrev pub as_object : Value → Result Error Fields
as_object (object fields) = ok fields
as_object v = err (other_error "AttributeError")

abbrev loading_text : Loaded → String
loading_text (loaded v) = ""
loading_text (not_utf8 t) = t
loading_text (not_json t) = "Invalid JSON metadata: " <> t

-- The text of the ValueError that `MixedModeDecoder.decode` raises for a payload.
abbrev pub mixed_mode_text : Python → Bytes → Exception → String
mixed_mode_text py payload (Exceptions.value_error no_metadata_length) =
    "Payload too short to contain metadata length prefix"
mixed_mode_text py payload (Exceptions.value_error payload_incomplete) =
    "Payload incomplete. Expected at least "
    <> (decimal (meta_len_size + read32 payload 0) <> (" bytes, got " <> decimal (length payload)))
mixed_mode_text py payload e =
    loading_text (py.loads (take (read32 payload 0) (drop meta_len_size payload)))

abbrev or_prefixed : Python → String → Bytes → Py (Value × Bytes) → Result Error (Value × Bytes)
or_prefixed py prefix payload (ok r) = ok r
or_prefixed py prefix payload (err e) = err (value_error (prefix <> mixed_mode_text py payload e))

-- MixedModeDecoder.decode, with a prefix to the text of what it raises.
unfoldable pub decode_mixed : Python → String → Bytes → Result Error (Value × Bytes)
decode_mixed py prefix payload = or_prefixed py prefix payload (decode (json_of py) payload)
