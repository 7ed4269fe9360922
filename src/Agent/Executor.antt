-- ===== src/Agent/Executor.antt =====
-- server/agent/tool_dispatcher.py: the execution of a plan, step by step.
pub mod Filter
pub mod Outputs
use rudp_agent_stack.Base.{
  ℕ, ◌*◌, String, Bool, true, false, not, Option, none, some, List, [], ◌∷◌, ok, err, Result, ltb,
  if◌then◌else◌, length, string_eq,
}
use rudp_agent_stack.Base.Dict.{lookup, insert, contains}
use rudp_agent_stack.Bytes.{Bytes}
use rudp_agent_stack.Agent.Text.{◌<>◌, is_empty}
use rudp_agent_stack.Agent.Values.{
  Value, null, text, array, Fields, end_object, field, truthy, Python,
}
use rudp_agent_stack.Agent.Paths.{Error, value_error, FilePath}
use rudp_agent_stack.Agent.Action.{Action, pure, raise, from_result, ◌>>=◌, ◌>>◌}
use rudp_agent_stack.Agent.Disk.{Disk}
use rudp_agent_stack.Agent.Planner.{
  ToolName, read_file, stream_read, search_lines, filter_lines, hash_sha256, build_report,
  write_file, write_artifact, Step, Entry, plain, found, generator, the_plan, Context, OutputPolicy,
  inline, artifact, dynamic, Plan, text_of,
}
use rudp_agent_stack.Agent.Loops.{Content, bytes, texts}
use rudp_agent_stack.Agent.Tools.{
  atomic_write, tool_read_file, tool_stream_read, tool_search_lines, tool_filter_lines,
  tool_hash_sha256, tool_build_report, tool_write_file, tool_write_artifact, entry_text,
}

abbrev pub inline_limit : ℕ
inline_limit = 64 * 1024

abbrev tool_text : ToolName → String
tool_text read_file = "READ_FILE"
tool_text stream_read = "STREAM_READ"
tool_text search_lines = "SEARCH_LINES"
tool_text filter_lines = "FILTER_LINES"
tool_text hash_sha256 = "HASH_SHA256"
tool_text build_report = "BUILD_REPORT"
tool_text write_file = "WRITE_FILE"
tool_text write_artifact = "WRITE_ARTIFACT"

module _ (py : Python) (root : FilePath) where
  abbrev missing : ToolName → String → Error
  missing tool key = value_error (
      "Step "
      <> (py.format_member ("ToolName." <> tool_text tool) (tool_text tool)
          <> (" requires " <> (key <> " which is missing from context."))))

  abbrev or_missing : ToolName → String → Option Entry → Result Error Entry
  or_missing tool key none = err (missing tool key)
  or_missing tool key (some e) = ok e

  -- The input of a step: nothing, or what an earlier step left under a key.
  abbrev pub resolve_input : ToolName → Option String → Context → Result Error Entry
  resolve_input tool none context = ok (plain null)
  resolve_input tool (some key) context =
      if is_empty key then ok (plain null) else or_missing tool key (lookup key context)

  abbrev pub run_tool : Step → Entry → Context → Action Disk Entry
  run_tool step input_data context = elim (step.tool) [
    | read_file ↦ tool_read_file py root step.args
    | stream_read ↦ tool_stream_read py root step.args
    | search_lines ↦ tool_search_lines py root step.args input_data
    | filter_lines ↦ tool_filter_lines py root step.args input_data
    | hash_sha256 ↦ tool_hash_sha256 py root input_data
    | build_report ↦ tool_build_report py root step.args input_data
    | write_file ↦ tool_write_file py root step.args input_data
    | write_artifact ↦ tool_write_artifact py root step.args input_data context
  ]

  unfoldable pub execute_step : Step → Context → Action Disk Context
  execute_step step context = do
    input_data ← from_result (resolve_input step.tool step.consumes context)
    output ← run_tool step input_data context
    pure (if is_empty step.produces then context else insert step.produces output context)

  unfoldable pub execute_steps : List Step → Context → Action Disk Context
  execute_steps [] context = pure context
  execute_steps (step ∷ rest) context = do
    context' ← execute_step step context
    execute_steps rest context'

  abbrev fallback_path : Context → String
  fallback_path context =
      "artifacts/"
      <> (text_of py (text "unknown") (lookup "client_id" context)
          <> ("/" <> (text_of py (text "fallback") (lookup "request_id" context) <> "_result.txt")))

  unfoldable pub write_fallback_artifact : Bytes → Context → Action Disk Value
  write_fallback_artifact content context = do
    atomic_write py root (text (fallback_path context)) (bytes content)
    pure (text (fallback_path context))

  -- A context entry in the result, as `json.dumps` with `default=str` takes it.
  abbrev pub entry_value : Entry → Value
  entry_value (plain v) = v
  entry_value (found ls) = array (texts ls)
  entry_value e = text (entry_text py root e)

  abbrev pub is_truthy : Entry → Bool
  is_truthy (plain v) = truthy v
  is_truthy (found []) = false
  is_truthy _ = true

  abbrev pub as_artifact : Bytes → Context → Action Disk Fields
  as_artifact encoded context = do
    path ← write_fallback_artifact encoded context
    pure (field "artifact_path" path end_object)

  abbrev pub artifact_output : Bytes → Context → Option Entry → Action Disk Fields
  artifact_output encoded context none = as_artifact encoded context
  artifact_output encoded context (some path) =
      pure (field "artifact_path" (entry_value path) end_object)

  abbrev pub output_by : OutputPolicy → Entry → Context → Action Disk Fields
  output_by inline output context =
      if ltb inline_limit (length (py.encode (entry_text py root output)))
      then raise (value_error "Output exceeded inline limit but policy is INLINE")
      else pure (field "output" (entry_value output) end_object)
  output_by artifact output context =
      artifact_output (py.encode (entry_text py root output)) context
        (lookup "artifact_path" context)
  output_by dynamic output context =
      if ltb inline_limit (length (py.encode (entry_text py root output)))
      then as_artifact (py.encode (entry_text py root output)) context
      else pure (field "output" (entry_value output) end_object)

  abbrev pub final_output : OutputPolicy → Context → Option Entry → Action Disk Fields
  final_output policy context none = pure end_object
  final_output policy context (some output) =
      if is_truthy output then output_by policy output context else pure end_object

  abbrev with_plan_path : Option Entry → Fields → Fields
  with_plan_path none result = result
  with_plan_path (some e) end_object = field "plan_artifact_path" (entry_value e) end_object
  with_plan_path (some e) (field k v rest) =
      field k v (field "plan_artifact_path" (entry_value e) rest)

  -- What `execute_plan` does behind the steps.
  unfoldable pub finalize : OutputPolicy → Context → Action Disk Fields
  finalize policy context = do
    result ← final_output policy context (lookup "final_output" context)
    pure (with_plan_path (lookup "plan_artifact_path" context) result)

  unfoldable pub execute_plan : Plan → Action Disk Fields
  execute_plan plan = do
    context ← execute_steps plan.steps plan.initial_context
    finalize plan.output_policy context
