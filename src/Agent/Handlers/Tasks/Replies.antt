-- ===== src/Agent/Handlers/Tasks/Replies.antt =====
-- Tasks that ask for their plan, and whose answers the cache gives.
use rudp_agent_stack.Base.{
  Option, none, nat_eq, ◌≡◌, ◌≢◌, sym, ap, ◌∙◌, ℕ, String, true, ok, Result, arith, string_eq,
}
use rudp_agent_stack.Base.Dict.{insert, contains, is_some, lookup-insert_self}
use rudp_agent_stack.Bytes.{Bytes}
use rudp_agent_stack.Idempotency.{key_eq, get_response}
use rudp_agent_stack.Agent.Action.{◌>>=◌}
use rudp_agent_stack.Rudp.Float.{Float}
use rudp_agent_stack.Agent.Values.{loaded, object, Fields, end_object, get_or, Python}
use rudp_agent_stack.Agent.Paths.{Error, FilePath}
use rudp_agent_stack.Agent.Disk.{Disk}
use rudp_agent_stack.Agent.Planner.{Context, Plan, the_plan, return_plan, build_plan}
use rudp_agent_stack.Agent.Executor.{execute_steps, execute_plan}
use rudp_agent_stack.Agent.Planner.Asked.{plan-EndsWithStep}
use rudp_agent_stack.Agent.Executor.Outputs.{execute_steps-plan_fails}
use rudp_agent_stack.Agent.Frame.{>>=-eq-ok}
use rudp_agent_stack.Agent.Handlers.{Agent, Surroundings, Answer, put_disk}
use rudp_agent_stack.Agent.Handlers.Tasks.{with_itself, run_task, client_id_of, handle_task}

-- A call on the file system that returned.
from_disk :
    (f : Float) (r : Disk × Result Error Fields) (s s' : Agent f) (a : Fields)
    → put_disk f s r ≡ (s', ok a)
    → r ≡ (s'.disk, ok a)
from_disk f (d, x) s s' a h = ground (arith, ap (λ p. p.0.disk) h, ap (λ p. p.1) h)

module _ (py : Python) (root : FilePath) where
  asked-fails :
      (opcode : ℕ) (fields : Fields) (context : Context) (plan : Plan) (d d' : Disk)
      (result : Fields)
      → return_plan (get_or "options" (object end_object) fields) ≡ ok true
      → build_plan py opcode fields context ≡ ok plan
      → execute_plan py root (with_itself plan) d ≢ (d', ok result)
  unfolding execute_plan
  asked-fails opcode fields context plan d d' result asked built h =
      let (steps, path, e, ne) = plan-EndsWithStep py opcode fields context plan asked built in
      let ran = >>=-eq-ok _ _ d d' result h in
      let c = insert "__plan__" the_plan plan.initial_context in
      let there : contains "__plan__" c ≡ true =
        ap is_some (lookup-insert_self "__plan__" the_plan plan.initial_context) in
      execute_steps-plan_fails py root steps path c ran.1 d ran.0 ne there
        (ap (λ ss. execute_steps py root ss c d) (sym e) ∙ ran.2)

  run_task-asked :
      (f : Float) (now : Surroundings f) (client_id : String) (request_id opcode : ℕ)
      (fields : Fields) (s s' : Agent f) (a : Answer)
      → return_plan (get_or "options" (object end_object) fields) ≡ ok true
      → run_task f py root now client_id request_id opcode fields s ≢ (s', ok a)
  unfolding run_task
  run_task-asked f now client_id request_id opcode fields s s' a asked h =
      let stat = >>=-eq-ok _ _ s s' a h in
      let planned = >>=-eq-ok _ _ stat.0 s' a stat.3 in
      let executed = >>=-eq-ok _ _ planned.0 s' a planned.3 in
      let plan = planned.1 in
      let built : build_plan py opcode fields stat.1 ≡ ok plan = ap (λ p. p.1) planned.2 in
      asked-fails opcode fields stat.1 plan planned.0.disk executed.0.disk executed.1 asked built (
        from_disk f (execute_plan py root (with_itself plan) planned.0.disk) planned.0 executed.0
          executed.1 executed.2)

  -- No task that asks for its plan succeeds, unless an earlier answer is repeated: when the options of a
  -- payload have `return_plan` and the cache has no answer under the key of the task, then its handler
  -- returns no answer, whatever the opcode, the files and the rest of the payload are.
  pub handle_task-asked :
      (f : Float) (now : Surroundings f) (request_id opcode : ℕ) (client_address : Option String)
      (payload : Bytes) (fields : Fields) (s s' : Agent f) (a : Answer)
      → py.loads payload ≡ loaded (object fields)
      → return_plan (get_or "options" (object end_object) fields) ≡ ok true
      → (get_response f
          (client_id_of client_address, (request_id, opcode))
          now.handled_at
          s.idempotency_cache).1
        ≡ none
      → handle_task f py root now request_id opcode client_address payload s ≢ (s', ok a)
  unfolding handle_task ◌>>=◌
  handle_task-asked f now request_id opcode client_address payload fields s s' a json asked fresh
        h =
      let client_id = client_id_of client_address in
      let c =
        (get_response f (client_id, (request_id, opcode)) now.handled_at s.idempotency_cache).0 in
      run_task-asked f now client_id request_id opcode fields (record s { idempotency_cache = c })
        s' a asked (rw (json, fresh) at h)
