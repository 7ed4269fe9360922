-- ===== src/Agent/Confined/Dispatch.antt =====
-- What no task and no other request touches that is dispatched.
use rudp_agent_stack.Base.{refl, Bool, true, false, Option, none, some, ℕ, nat_eq, string_eq}
use rudp_agent_stack.Bytes.{Bytes}
use rudp_agent_stack.Rudp.Float.{Float}
use rudp_agent_stack.Idempotency.{key_eq}
use rudp_agent_stack.Agent.Values.{Value, Fields, has, get, Python}
use rudp_agent_stack.Agent.Paths.{FilePath}
use rudp_agent_stack.Agent.Frame.{Keeps, Keeps-bind, Keeps-ask}
use rudp_agent_stack.Agent.Planner.{Context}
use rudp_agent_stack.Agent.Handlers.{Agent, Surroundings}
use rudp_agent_stack.Agent.Handlers.Tasks.{
  handle_task, run_task, cached_or_run, stat_if, size_if, store_if, with_itself,
}
use rudp_agent_stack.Envelope.{AppHeader}
use rudp_agent_stack.Agent.Dispatcher.{
  Handler, on_list, on_put_meta, on_put_chunk, on_get, on_append, on_task, handler_for, run_handler,
  dispatch_to, dispatch,
}
use rudp_agent_stack.Agent.Confined.Tools.{execute_plan-Confined}
use rudp_agent_stack.Agent.Confined.Handlers.{
  Spares, handle_get-Keeps, handle_append-Keeps, handle_list-Keeps, handle_put_meta-Keeps,
  handle_put_chunk-Keeps,
}

module _ (f : Float) (py : Python) (root : FilePath) {X : Type 0} (view : Agent f → X)
    (spares : Spares f py root view) where
  size_if-Keeps : (b : Bool) (p : FilePath) (c : Context) → Keeps view (size_if f py root b p c)
  size_if-Keeps false p c = λ s. refl
  size_if-Keeps true p c = Keeps-ask view _ _ λ n s. refl

  stat_if-Keeps :
      (b : Bool) (cwd : FilePath) (v : Value) (c : Context)
      → Keeps view (stat_if f py root b cwd v c)
  stat_if-Keeps false cwd v c = λ s. refl
  stat_if-Keeps true cwd v c =
      Keeps-ask view _ _ λ _. Keeps-ask view _ _ λ there. size_if-Keeps there _ c

  store_if-Keeps :
      (b : Bool) (request_id opcode : ℕ) (bs : Bytes) (now : f.F)
      → Keeps view (store_if f py root b "default_client" request_id opcode bs now)
  store_if-Keeps false request_id opcode bs now = λ s. refl
  store_if-Keeps true request_id opcode bs now = λ s. spares.stored s request_id opcode bs now

  run_task-Keeps :
      (now : Surroundings f) (request_id opcode : ℕ) (fields : Fields)
      → Keeps view (run_task f py root now "default_client" request_id opcode fields)
  unfolding run_task
  run_task-Keeps now request_id opcode fields =
      Keeps-bind view _ _
        (stat_if-Keeps (has "input_file" fields) now.working_directory (get "input_file" fields) _)
        λ context. Keeps-ask view _ _ λ plan.
          Keeps-bind view _ _
            (λ s.
              spares.files s _
                λ q outside. execute_plan-Confined py root q outside (with_itself plan) s.disk)
            λ result. Keeps-ask view _ _ λ bs.
              Keeps-bind view _ _
                (store_if-Keeps plan.side_effects request_id opcode bs now.task_cached_at)
                λ _ s. refl

  cached_or_run-Keeps :
      (now : Surroundings f) (request_id opcode : ℕ) (fields : Fields) (o : Option Bytes)
      → Keeps view (cached_or_run f py root now "default_client" request_id opcode fields o)
  cached_or_run-Keeps now request_id opcode fields (some bs) = λ s. refl
  cached_or_run-Keeps now request_id opcode fields none =
      run_task-Keeps now request_id opcode fields

  pub handle_task-Keeps :
      (now : Surroundings f) (request_id opcode : ℕ) (payload : Bytes)
      → Keeps view (handle_task f py root now request_id opcode none payload)
  unfolding handle_task
  handle_task-Keeps now request_id opcode payload = Keeps-ask view _ _ λ v.
      Keeps-ask view _ _ λ fields.
        Keeps-bind view _ _ (λ s. spares.looked_up s request_id opcode now.handled_at)
          (cached_or_run-Keeps now request_id opcode fields)

  pub run_handler-Keeps :
      (now : Surroundings f) (header : AppHeader) (payload : Bytes) (h : Handler)
      → Keeps view (run_handler f py root now header payload none h)
  run_handler-Keeps now header payload on_list = handle_list-Keeps f py root view spares now
  run_handler-Keeps now header payload on_put_meta =
      handle_put_meta-Keeps f py root view spares now payload
  run_handler-Keeps now header payload on_put_chunk =
      handle_put_chunk-Keeps f py root view spares now payload
  run_handler-Keeps now header payload on_get = handle_get-Keeps f py root view spares payload
  run_handler-Keeps now header payload on_append = handle_append-Keeps f py root view spares payload
  run_handler-Keeps now header payload on_task =
      handle_task-Keeps now header.request_id header.opcode payload

  dispatch_to-Keeps :
      (now : Surroundings f) (header : AppHeader) (payload : Bytes) (o : Option Handler)
      → Keeps view (dispatch_to f py root now header payload none o)
  dispatch_to-Keeps now header payload none = λ s. refl
  dispatch_to-Keeps now header payload (some h) = run_handler-Keeps now header payload h

  pub dispatch-Keeps :
      (now : Surroundings f) (header : AppHeader) (payload : Bytes)
      → Keeps view (dispatch f py root now header payload none)
  unfolding dispatch
  dispatch-Keeps now header payload =
      dispatch_to-Keeps now header payload (handler_for header.opcode)
