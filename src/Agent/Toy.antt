-- ===== src/Agent/Toy.antt =====
-- What the tests of the agent run on: a small file system, and a toy JSON in which a byte stands for a
-- whole payload.
use Prim.Native.Char.{code}
use rudp_agent_stack.Base.{
  ℕ, String, true, some, [], ◌∷◌, ◌++◌, string_eq, nat_eq, length, ◌==◌, if◌then◌else◌,
}
use rudp_agent_stack.Base.Dict.{lookup, insert, remove}
use rudp_agent_stack.Bytes.{Bytes, be32}
use rudp_agent_stack.Idempotency.{key_eq, get_response, store_response}
use rudp_agent_stack.Envelope.{AppHeader, decode_header, encode_message}
use rudp_agent_stack.Envelope.MixedMode.{encode, decode}
use rudp_agent_stack.Samples.{milli}
use rudp_agent_stack.Agent.Text.{
  starts_with, occurs, split, join, newlines_from, lines_from, file_lines, strip_left, strip_right,
  decimal,
}
use rudp_agent_stack.Agent.Values.{
  Value, truth, int, text, object, field, end_object, get, has, Loaded, loaded, not_json, Python,
}
use rudp_agent_stack.Agent.Paths.{
  FilePath, path_eq, normalize, abspath_join, commonpath, validate_path, path_text,
}
use rudp_agent_stack.Agent.Action.{◌>>=◌}
use rudp_agent_stack.Agent.Disk.{
  Disk, getsize, read_file, write_file, append_file, write_at, make_from, makedirs,
}
use rudp_agent_stack.Agent.Planner.{
  template_search_report, template_filter_lines, template_hash_and_store, build_plan,
}
use rudp_agent_stack.Agent.Loops.{read_chunks, search_from, filter_from}
use rudp_agent_stack.Agent.Tools.{
  atomic_write, tool_read_file, tool_stream_read, iterate, tool_search_lines, tool_filter_lines,
  tool_hash_sha256, tool_write_file, tool_write_artifact, tool_build_report,
}
use rudp_agent_stack.Agent.Executor.{
  execute_step, execute_steps, write_fallback_artifact, finalize, execute_plan,
}
use rudp_agent_stack.Agent.Response.{build_response, build_error_response}
use rudp_agent_stack.Agent.Handlers.{Agent, Surroundings, decode_mixed}
use rudp_agent_stack.Agent.Handlers.Files.{
  handle_get, handle_append, handle_list, list_sandbox, collect, sort_by_name, insert_by_name,
}
use rudp_agent_stack.Agent.Handlers.Uploads.{handle_put_meta}
use rudp_agent_stack.Agent.Handlers.Tasks.{handle_task, run_task}
use rudp_agent_stack.Agent.Dispatcher.{handler_for, status_of, error_response, dispatch}
use rudp_agent_stack.Agent.Server.{new_agent, process_request}
use rudp_agent_stack.Agent.Confined.Requests.{Request}

abbrev pub codes : String → Bytes
codes String.[] = []
codes (String.◌∷◌ c s) = code c ∷ codes s

abbrev pub task_payload : String → Value → Value
task_payload query options = object (
    field "input_file" (text "in.txt") (
      field "query" (text query)
        (field "out_file" (text "kept.txt") (field "options" options end_object))))

abbrev pub toy_loads : Bytes → Loaded
toy_loads [] = not_json "Expecting value"
toy_loads (b ∷ rest) =
    if b == 1
    then loaded (object (field "filename" (text "in.txt") end_object))
    else if b == 2
    then loaded (
        object (
          field "filename" (text "../../etc/passwd")
            (field "total_size" (int 3) (field "overwrite" (truth true) end_object))))
    else if b == 3
    then loaded (task_payload "a" (object end_object))
    else if b == 4
    then loaded (task_payload "z" (object end_object))
    else not_json "Expecting value"

abbrev pub toy : Python
toy = record {
  loads = toy_loads;
  dumps = λ v. 7 ∷ [];
  dumps_sorted = λ v. "{}";
  encode = codes;
  decode = λ b. some "a1\nb\na2\n";
  decode_error = λ b. "invalid start byte";
  decode_replace = λ b. "a1\nb\na2\n";
  sha256 = λ b. "0123456789abcdef01234567";
  lower = λ s. s;
  dumps_indented = λ v. "{}";
  repr = λ v. "?";
  object_text = λ s. s;
  format_member = λ name v. v;
  os_error = λ n p. p;
  directory_size = 4096;
}

abbrev pub root : FilePath
root = "srv" ∷ "sandbox" ∷ []

abbrev pub passwd : FilePath
passwd = "etc" ∷ "passwd" ∷ []

abbrev pub disk : Disk
disk = record {
  files = (passwd, 9 ∷ []) ∷ ("srv" ∷ "sandbox" ∷ "in.txt" ∷ [], 1 ∷ []) ∷ [];
  directories = [] ∷ ("srv" ∷ []) ∷ root ∷ ("etc" ∷ []) ∷ [];
}

abbrev pub at : ℕ → Surroundings milli
at t = record {
  looked_up_at = t;
  handled_at = t;
  task_cached_at = t;
  cached_at = t;
  upload_id = "u";
  working_directory = [];
  mtime = λ p. int 0;
}

abbrev pub message : ℕ → ℕ → Bytes → Bytes
message opcode request_id payload =
    1 ∷ opcode ∷ 0 ∷ 0 ∷ be32 request_id ++ (be32 (length payload) ++ payload)

abbrev pub header_of : ℕ → ℕ → ℕ → AppHeader
header_of opcode request_id n = record {
  version = 1;
  opcode = opcode;
  flags = 0;
  reserved = 0;
  request_id = request_id;
  payload_len = n;
}

abbrev pub request : ℕ → String → Bytes → Request milli toy root
request t id data_ = record { now = at t; client_id = id; data_ = data_ }

abbrev pub start : Agent milli
start = new_agent milli toy root disk

unfoldable pub program : Unit {0}
unfolding lookup insert remove get_response store_response decode_header encode_message encode
    decode starts_with occurs split join newlines_from lines_from file_lines strip_left strip_right
    decimal get has normalize abspath_join commonpath validate_path path_text ◌>>=◌ getsize
    read_file write_file append_file write_at make_from makedirs template_search_report
    template_filter_lines template_hash_and_store build_plan read_chunks search_from filter_from
    atomic_write tool_read_file tool_stream_read iterate tool_search_lines tool_filter_lines
    tool_hash_sha256 tool_write_file tool_write_artifact tool_build_report execute_step
    execute_steps write_fallback_artifact finalize execute_plan build_response build_error_response
    decode_mixed handle_get handle_append handle_list list_sandbox collect sort_by_name
    insert_by_name handle_put_meta handle_task run_task handler_for status_of error_response
    dispatch process_request
program = tt
