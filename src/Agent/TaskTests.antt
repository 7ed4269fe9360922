-- ===== src/Agent/TaskTests.antt =====
-- Paths, plans and tasks of the agent on inputs.
use rudp_agent_stack.Base.{
  ◌≡◌, ◌≢◌, refl, String, true, false, none, some, List, [], ◌∷◌, ◌++◌, ok, err, Result, All,
  string_eq, nat_eq, take,
}
use rudp_agent_stack.Base.Dict.{lookup, insert}
use rudp_agent_stack.Bytes.{Bytes}
use rudp_agent_stack.Constants.{header_size}
use rudp_agent_stack.Idempotency.{key_eq, get_response}
use rudp_agent_stack.Envelope.{decode_header}
use rudp_agent_stack.Samples.{milli}
use rudp_agent_stack.Agent.Text.{◌<>◌, splitlines, universal_newlines, join}
use rudp_agent_stack.Agent.Values.{
  loaded, Python, Value, Fields, null, truth, text, object, field, end_object, get, get_or,
}
use rudp_agent_stack.Agent.Paths.{Error, FilePath, path_eq, validate_path}
use rudp_agent_stack.Agent.Paths.Sandbox.{IsName, validate_path-ok}
use rudp_agent_stack.Agent.Paths.Names.{NoSlash, validate_path-join}
use rudp_agent_stack.Agent.Disk.{Disk}
use rudp_agent_stack.Agent.Planner.Wiring.{IsWired, build_plan-IsWired}
use rudp_agent_stack.Agent.Planner.{
  Plan, Context, plain, memory, dynamic, return_plan, template_filter_lines, build_plan,
}
use rudp_agent_stack.Agent.Loops.{str}
use rudp_agent_stack.Agent.Tools.{atomic_write}
use rudp_agent_stack.Agent.Executor.{execute_steps, execute_plan}
use rudp_agent_stack.Agent.Handlers.{Agent, response}
use rudp_agent_stack.Agent.Handlers.Tasks.{handle_task}
use rudp_agent_stack.Agent.Dispatcher.{handler_for, on_task}
use rudp_agent_stack.Agent.Server.{process_request}
use rudp_agent_stack.Agent.Guarantees.{answer_at}
use rudp_agent_stack.Agent.Executor.Filter.{IsInput, matching, execute_steps-filter}
use rudp_agent_stack.Agent.Executor.Outputs.{execute_plan-filter_lost}
use rudp_agent_stack.Agent.Handlers.Tasks.Replies.{handle_task-asked}
use rudp_agent_stack.Agent.Guarantees.Shared.{HasLeft, process_request-shared}
use rudp_agent_stack.Agent.Toy.{
  toy, root, disk, at, message, header_of, start, program, task_payload,
}

root_names : All IsName root
root_names = ((refl, refl, refl), ((refl, refl, refl), tt))

ab_names : All IsName ("a" ∷ "b.txt" ∷ [])
ab_names = ((refl, refl, refl), ((refl, refl, refl), tt))

ab_plain : All NoSlash ("a" ∷ "b.txt" ∷ [])
ab_plain = ((refl, tt), ((refl, (refl, (refl, (refl, (refl, tt))))), tt))

in_sandbox : validate_path root "in.txt" ≡ ok (root ++ "in.txt" ∷ [])
unfolding program
in_sandbox = refl

validate_path-ok_example :
    (rest : FilePath) × (root ++ "in.txt" ∷ [] ≡ root ++ rest) × All IsName rest
validate_path-ok_example =
    validate_path-ok root "in.txt" (root ++ "in.txt" ∷ []) root_names in_sandbox

validate_path-join_example :
    validate_path root (join "/" ("a" ∷ "b.txt" ∷ [])) ≡ ok (root ++ "a" ∷ "b.txt" ∷ [])
validate_path-join_example = validate_path-join root "a" ("b.txt" ∷ []) ab_names ab_plain

abbrev fields_of : Value → Fields
fields_of (object fs) = fs
fields_of v = end_object

abbrev keep_a : Fields
keep_a = fields_of (task_payload "a" (object end_object))

abbrev asking : Fields
asking = fields_of (task_payload "a" (object (field "return_plan" (truth true) end_object)))

abbrev plan_of : Result Error Plan → Plan
plan_of (ok plan) = plan
plan_of (err e) = record {
  plan_id = "";
  task_type = 0;
  execution_mode = memory;
  output_policy = dynamic;
  steps = [];
  side_effects = false;
  explanation = "";
  initial_context = [];
}

abbrev the_filter : Plan
the_filter = plan_of (build_plan toy 0x11 keep_a [])

filter_built : build_plan toy 0x11 keep_a [] ≡ ok the_filter
unfolding program
filter_built = refl

build_plan-IsWired_example : IsWired [] the_filter.steps
build_plan-IsWired_example = build_plan-IsWired toy 0x11 keep_a [] the_filter filter_built

input : IsInput toy root "in.txt" "a1\nb\na2\n" disk
unfolding program
input = record {
  path = root ++ "in.txt" ∷ [];
  bytes = 1 ∷ [];
  valid = refl;
  small = refl;
  sized = refl;
  there = refl;
  decoded = refl;
}

abbrev kept : List String
kept = matching "a" (splitlines (universal_newlines "a1\nb\na2\n"))

abbrev after_filter : Disk
after_filter = (atomic_write toy root (text "kept.txt") (str (join "\n" kept)) disk).0

kept_lines : kept ≡ "a1" ∷ "a2" ∷ []
unfolding program
kept_lines = refl

kept_written :
    atomic_write toy root (text "kept.txt") (str (join "\n" kept)) disk ≡ (after_filter, ok tt)
unfolding program
kept_written = refl

kept_file : lookup (root ++ "kept.txt" ∷ []) after_filter.files ≡ some (toy.encode "a1\na2")
unfolding program
kept_file = refl

keep_a_input : get "input_file" keep_a ≡ text "in.txt"
unfolding program
keep_a_input = refl

keep_a_query : get "query" keep_a ≡ text "a"
unfolding program
keep_a_query = refl

execute_steps-filter_example :
    (context' : Context) × (execute_steps toy root
        (template_filter_lines toy keep_a memory (text "kept.txt"))
        []
        disk
      ≡ (after_filter, ok context'))
    × (lookup "final_output" context'
        ≡ some (plain (text ("Filtered lines written to " <> "kept.txt"))))
    × (path : FilePath) × (validate_path root "kept.txt" ≡ ok path)
    × (after_filter.files ≡ insert path (toy.encode (join "\n" kept)) disk.files)
execute_steps-filter_example =
    execute_steps-filter toy root keep_a "in.txt" "a1\nb\na2\n" "a" "kept.txt" [] disk after_filter
      keep_a_input keep_a_query refl input kept_written

-- The filter with no output file.
abbrev lost : Fields
lost = field "input_file" (text "in.txt") (field "query" (text "a") end_object)

abbrev lost_plan : Plan
lost_plan = plan_of (build_plan toy 0x11 lost [])

lost_steps : lost_plan.steps ≡ template_filter_lines toy lost memory null
unfolding program
lost_steps = refl

lost_context : lost_plan.initial_context ≡ []
unfolding program
lost_context = refl

lost_runs : execute_plan toy root lost_plan disk ≡ (disk, ok end_object)
unfolding program
lost_runs = refl

no_output : lookup "final_output" lost_plan.initial_context ≡ none
unfolding program
no_output = refl

no_path : lookup "plan_artifact_path" lost_plan.initial_context ≡ none
unfolding program
no_path = refl

execute_plan-filter_lost_example : (end_object ≡ end_object) × (disk ≡ disk)
execute_plan-filter_lost_example =
    execute_plan-filter_lost toy root lost memory null lost_plan disk disk end_object lost_steps
      refl no_output no_path lost_runs

-- A JSON in which every payload asks for the plan.
abbrev asking_json : Python
asking_json = record toy { loads = λ bs. loaded (object asking) }

asked : return_plan (get_or "options" (object end_object) asking) ≡ ok true
unfolding program
asked = refl

asking_loads : asking_json.loads [] ≡ loaded (object asking)
asking_loads = refl

nothing_cached :
    (get_response milli ("default_client", (7, 0x11)) 0 start.idempotency_cache).1 ≡ none
unfolding program
nothing_cached = refl

handle_task-asked_example :
    handle_task milli asking_json root (at 0) 7 0x11 none [] start ≢ (start, ok (response []))
handle_task-asked_example =
    handle_task-asked asking_json root milli (at 0) 7 0x11 none [] asking start start (response [])
      asking_loads asked nothing_cached

-- Two clients send a filter with the same request id; the second one asks for other lines.
abbrev first_task : Bytes
first_task = message 0x11 9 (3 ∷ [])

abbrev second_task : Bytes
second_task = message 0x11 9 (4 ∷ [])

abbrev task_answer : Bytes
task_answer = 0x11 ∷ 0 ∷ 0 ∷ 0 ∷ 0 ∷ 0 ∷ 9 ∷ 0 ∷ 0 ∷ 0 ∷ 1 ∷ 7 ∷ []

abbrev after_task : Agent milli
after_task = (process_request milli toy root (at 0) "first" first_task start).0

task_answered :
    process_request milli toy root (at 0) "first" first_task start ≡ (after_task, 1 ∷ task_answer)
unfolding program
task_answered = refl

second_decoded : decode_header (take header_size second_task) ≡ ok (header_of 0x11 9 1)
unfolding program
second_decoded = refl

second_new : answer_at milli toy root ("second", (9, 0x11)) after_task ≡ none
unfolding program
second_new = refl

left : HasLeft milli toy root 9 0x11 (1 ∷ task_answer) 0 after_task
unfolding program
left = refl

is_task : handler_for 0x11 ≡ some on_task
unfolding program
is_task = refl

process_request-shared_example :
    ((process_request milli toy root (at 1000) "second" second_task after_task).1 ≡ 1 ∷ task_answer)
    × ((process_request milli toy root (at 1000) "second" second_task after_task).0.disk
        ≡ after_task.disk)
process_request-shared_example =
    process_request-shared milli toy root (at 1000) "second" second_task (header_of 0x11 9 1)
      (fields_of (task_payload "z" (object end_object))) 1 task_answer 0 after_task second_decoded
      refl is_task refl second_new left refl
