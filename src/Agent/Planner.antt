-- ===== src/Agent/Planner.antt =====
-- server/agent/planner.py: the plan of a task. The context of a plan holds what its steps make, so the
-- values of a context are here too.
pub mod Wiring
pub mod Asked
use Prim.Native.String
use rudp_agent_stack.Base.{
  ℕ, String, Bool, true, false, not, Option, none, some, List, [], ◌∷◌, ◌++◌, ok, err, Result,
  ◌>>=◌, leb, ◌==◌, if◌then◌else◌, string_eq, ◌*◌,
}
use rudp_agent_stack.Base.Dict.{Dict, lookup, insert}
use rudp_agent_stack.Bytes.{Bytes}
use rudp_agent_stack.Constants.{op_task_search_report, op_task_filter_lines, op_task_hash_and_store}
use rudp_agent_stack.Agent.Text.{◌<>◌, decimal, is_empty}
use rudp_agent_stack.Agent.Values.{
  Value, null, truth, int, text, array, object, Fields, end_object, get, get_or, truthy, Python,
}
use rudp_agent_stack.Agent.Paths.{Error, value_error, other_error, FilePath}

abbrev pub stream_threshold : ℕ
stream_threshold = 256 * 1024

pub data ExecutionMode : Type 0 where
  memory stream : ExecutionMode

pub data OutputPolicy : Type 0 where
  inline artifact dynamic : OutputPolicy

pub data ToolName : Type 0 where
  read_file stream_read search_lines filter_lines hash_sha256 build_report write_file
        write_artifact :
      ToolName

-- One step, with the context key of its output and of its input.
pub record Step : Type 0 where
  pub tool : ToolName
  pub args : Dict String Value
  pub produces : String
  pub consumes : Option String

-- What a context holds: a value, the lines that a tool found, the generator of `_tool_stream_read`
-- before its first use, and the plan that the task handler puts there.
pub data Entry : Type 0 where
  plain : Value → Entry
  found : List String → Entry
  generator : FilePath → Bool → Entry
  the_plan : Entry

abbrev pub Context : Type 0
Context = Dict String Entry

pub record Plan : Type 0 where
  pub plan_id : String
  pub task_type : ℕ
  pub execution_mode : ExecutionMode
  pub output_policy : OutputPolicy
  pub steps : List Step
  pub side_effects : Bool
  pub explanation : String
  pub initial_context : Context

abbrev pub make_step : ToolName → Dict String Value → String → Option String → Step
make_step tool args produces consumes = record {
  tool = tool;
  args = args;
  produces = produces;
  consumes = consumes;
}

-- The first step of a search or a filter.
abbrev pub read_step : Value → ExecutionMode → Step
read_step target memory = make_step read_file (("path", target) ∷ []) "file_content" none
read_step target stream = make_step stream_read (("path", target) ∷ []) "file_stream" none

unfoldable pub template_search_report : Fields → ExecutionMode → List Step
template_search_report payload mode =
    let read = read_step (get "input_file" payload) mode in
    read
    ∷ make_step search_lines (("pattern", get "query" payload) ∷ []) "search_results"
        (some read.produces)
    ∷ make_step build_report (("format", text "search_summary") ∷ []) "final_output"
        (some "search_results")
    ∷ []

-- f"{v}" in a message
abbrev pub shown : Python → Value → String
shown py (text s) = s
shown py v = py.repr v

abbrev pub filter_output : Python → Value → List Step
filter_output py out_file =
    make_step write_file (("path", out_file) ∷ []) "write_status" (some "filtered_lines")
    ∷ make_step build_report
        (("format", text "action_completion")
          ∷ ("msg", text ("Filtered lines written to " <> shown py out_file))
          ∷ [])
        "final_output" none
    ∷ []

unfoldable pub template_filter_lines : Python → Fields → ExecutionMode → Value → List Step
template_filter_lines py payload mode out_file =
    let read = read_step (get "input_file" payload) mode in
    read
    ∷ make_step filter_lines (("pattern", get "query" payload) ∷ []) "filtered_lines"
        (some read.produces)
    ∷ (if truthy out_file then filter_output py out_file else [])

unfoldable pub template_hash_and_store : Python → Fields → List Step
template_hash_and_store py payload =
    let dest = get "out_file" payload in
    make_step stream_read (("path", get "input_file" payload) ∷ ("binary", truth true) ∷ [])
      "file_stream" none
    ∷ make_step hash_sha256 [] "hash_result" (some "file_stream")
    ∷ make_step write_file (("path", dest) ∷ []) "write_status" (some "hash_result")
    ∷ make_step build_report
        (("format", text "action_completion")
          ∷ ("msg", text ("Hash written to " <> shown py dest))
          ∷ [])
        "final_output" none
    ∷ []

-- The steps, whether the task has side effects, and the explanation.
abbrev pub select_template :
    Python → ℕ → Fields → ExecutionMode → Result Error (List Step × (Bool × String))
select_template py opcode payload mode =
    if opcode == op_task_search_report
    then ok (
      template_search_report payload mode,
      (false, "Search pattern in file and generate report."),
    )
    else if opcode == op_task_filter_lines
    then (let out_file = get "out_file" payload in
        ok (
          template_filter_lines py payload mode out_file,
          (truthy out_file, "Filter lines matching pattern."),
        ))
    else if opcode == op_task_hash_and_store
    then ok (template_hash_and_store py payload, (true, "Compute SHA256 hash and store to file."))
    else err (value_error ("Unknown Task Opcode: " <> decimal opcode))

abbrev pub plan_step : String → Step
plan_step plan_path =
    make_step write_artifact (("path", text plan_path) ∷ ("content_key", text "__PLAN_JSON__") ∷ [])
      "plan_artifact_path" none

-- payload.get('options', {}).get('return_plan')
abbrev pub return_plan : Value → Result Error Bool
return_plan (object options) = ok (truthy (get "return_plan" options))
return_plan v = err (other_error "AttributeError")

-- An entry of the context of a request as a text, with its default.
abbrev pub text_of : Python → Value → Option Entry → String
text_of py default (some (plain v)) = shown py v
text_of py default _ = shown py default

abbrev pub size_of : Option Entry → ℕ
size_of (some (plain (int n))) = n
size_of _ = 0

abbrev pub mode_for : ℕ → ExecutionMode
mode_for file_size = if leb file_size stream_threshold then memory else stream

abbrev pub artifact_path : Python → Context → String → String
artifact_path py context suffix =
    "artifacts/"
    <> (text_of py (text "unknown") (lookup "client_id" context)
        <> ("/" <> (text_of py (int 0) (lookup "request_id" context) <> ("_" <> suffix))))

abbrev format_mode : Python → ExecutionMode → String
format_mode py memory = py.format_member "ExecutionMode.MEMORY" "memory"
format_mode py stream = py.format_member "ExecutionMode.STREAM" "stream"

abbrev format_bool : Bool → String
format_bool true = "True"
format_bool false = "False"

-- The first 16 digits of the hash of what the plan depends on.
abbrev pub id_of_plan : Python → ℕ → Fields → ExecutionMode → Bool → String
id_of_plan py opcode payload mode side_effects =
    String.slice
      (py.sha256 (
        py.encode (
          decimal opcode
          <> ("-"
              <> (py.dumps_sorted (object payload)
                  <> ("-"
                      <> (format_mode py mode
                          <> ("-"
                              <> (py.format_member "OutputPolicy.DYNAMIC" "dynamic"
                                  <> ("-" <> format_bool side_effects))))))))))
      0 16

abbrev pub make_plan :
    Python → ℕ → Fields → Context → ExecutionMode → List Step × (Bool × String) → Bool → Plan
make_plan py opcode payload context mode (steps, (side_effects, explanation)) with_plan = record {
  plan_id = id_of_plan py opcode payload mode side_effects;
  task_type = opcode;
  execution_mode = mode;
  output_policy = dynamic;
  steps =
      if with_plan then steps ++ plan_step (artifact_path py context "plan.json") ∷ [] else steps;
  side_effects = side_effects;
  explanation = explanation;
  initial_context = context;
}

unfoldable pub build_plan : Python → ℕ → Fields → Context → Result Error Plan
build_plan py opcode payload context = do
  let mode = mode_for (size_of (lookup "file_size" context))
  template ← select_template py opcode payload mode
  with_plan ← return_plan (get_or "options" (object end_object) payload)
  ok (make_plan py opcode payload context mode template with_plan)
