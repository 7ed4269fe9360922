-- ===== src/Agent/Handlers/Tasks.antt =====
-- server/agent/handlers/task.py: a task is planned, executed and answered.
pub mod Replies
use rudp_agent_stack.Base.{
  ℕ, String, Bool, true, false, Option, none, some, List, [], ◌∷◌, ok, err, Result, if◌then◌else◌,
  string_eq, nat_eq,
}
use rudp_agent_stack.Base.Dict.{lookup, insert}
use rudp_agent_stack.Bytes.{Bytes}
use rudp_agent_stack.Rudp.Float.{Float}
use rudp_agent_stack.Idempotency.{key_eq, get_response, store_response}
use rudp_agent_stack.Agent.Text.{decimal}
use rudp_agent_stack.Agent.Values.{
  Value, null, int, text, object, Fields, get, has, Loaded, loaded, not_utf8, not_json, Python,
}
use rudp_agent_stack.Agent.Paths.{Error, value_error, other_error, FilePath, abspath_join}
use rudp_agent_stack.Agent.Action.{Action, pure, raise, from_result, ◌>>=◌, ◌>>◌}
use rudp_agent_stack.Agent.Disk.{Disk, exists, getsize}
use rudp_agent_stack.Agent.Planner.{Entry, plain, the_plan, Context, Plan, build_plan}
use rudp_agent_stack.Agent.Tools.{validate_value}
use rudp_agent_stack.Agent.Executor.{execute_plan}
use rudp_agent_stack.Agent.Response.{build_response, status_ok}
use rudp_agent_stack.Agent.Handlers.{Agent, Surroundings, Answer, response, on_disk}
use rudp_agent_stack.Agent.Handlers.Files.{is_missing}
use rudp_agent_stack.Agent.Handlers.Uploads.{json_for_put, text_or_empty}

abbrev pub task_fields : Value → Result Error Fields
task_fields (object fields) = ok fields
task_fields v = err (value_error "Payload must be a JSON object")

-- The handler puts the plan into the context, which the plan shares.
abbrev pub with_itself : Plan → Plan
with_itself plan = record plan { initial_context = insert "__plan__" the_plan plan.initial_context }

abbrev pub client_id_of : Option String → String
client_id_of none = "default_client"
client_id_of (some address) = address

module _ (f : Float) (py : Python) (root : FilePath) where
  -- The size of the input file, if there is one: its path is taken from the working directory of the
  -- process and not from the sandbox.
  abbrev with_size : ℕ → Context → Context
  with_size n context = insert "file_size" (plain (int n)) context

  abbrev pub size_if : Bool → FilePath → Context → Action (Agent f) Context
  size_if false p context = pure context
  size_if true p context = do n ← λ s. (s, getsize py p s.disk); pure (with_size n context)

  abbrev pub stat_if : Bool → FilePath → Value → Context → Action (Agent f) Context
  stat_if false cwd input_file context = pure context
  stat_if true cwd input_file context = do
    from_result (validate_value root input_file)
    let p = abspath_join cwd (text_or_empty input_file)
    there ← λ s. (s, ok (exists p s.disk))
    size_if there p context

  abbrev pub stat_input : FilePath → Fields → Context → Action (Agent f) Context
  stat_input cwd fields context =
      stat_if (has "input_file" fields) cwd (get "input_file" fields) context

  abbrev pub cached : Option Bytes → Option Bytes
  cached none = none
  cached (some bs) = if is_missing bs then none else some bs

  abbrev pub store_if : Bool → String → ℕ → ℕ → Bytes → f.F → Action (Agent f) (Unit {0})
  store_if false client_id request_id opcode bytes now s = (s, ok tt)
  store_if true client_id request_id opcode bytes now s = (
    record s {
      idempotency_cache =
          store_response f (client_id, (request_id, opcode)) bytes now s.idempotency_cache;
    },
    ok tt,
  )

  -- The steps 3 to 6 of a task that is not in the cache.
  unfoldable pub run_task : Surroundings f → String → ℕ → ℕ → Fields → Action (Agent f) Answer
  run_task now client_id request_id opcode task_data = do
    let context =
        ("client_id", plain (text client_id))
        ∷ ("request_id", plain (text (decimal request_id)))
        ∷ []
    context' ← stat_input now.working_directory task_data context
    plan ← from_result (build_plan py opcode task_data context')
    result ← on_disk f (execute_plan py root (with_itself plan))
    response_bytes ←
        from_result (build_response py opcode request_id status_ok (object result) null none)
    store_if plan.side_effects client_id request_id opcode response_bytes now.task_cached_at
    pure (response response_bytes)

  abbrev pub cached_or_run :
      Surroundings f → String → ℕ → ℕ → Fields → Option Bytes → Action (Agent f) Answer
  cached_or_run now client_id request_id opcode task_data (some bs) = pure (response bs)
  cached_or_run now client_id request_id opcode task_data none =
      run_task now client_id request_id opcode task_data

  unfoldable pub handle_task :
      Surroundings f → ℕ → ℕ → Option String → Bytes → Action (Agent f) Answer
  handle_task now request_id opcode client_address payload = do
    v ← from_result (json_for_put (py.loads payload))
    task_data ← from_result (task_fields v)
    let client_id = client_id_of client_address
    cached_result ← λ s.
        let (c, r) =
          get_response f (client_id, (request_id, opcode)) now.handled_at s.idempotency_cache in
        (record s { idempotency_cache = c }, ok (cached r))
    cached_or_run now client_id request_id opcode task_data cached_result
