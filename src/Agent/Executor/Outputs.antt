-- ===== src/Agent/Executor/Outputs.antt =====
-- What the steps of a plan leave in its context, and what becomes of tasks without a report and of tasks
-- that ask for their plan.
use rudp_agent_stack.Base.{
  Option, ◌≡◌, ◌≢◌, refl, sym, ap, ◌∙◌, String, true, false, none, List, [], ◌∷◌, ◌++◌, ok, err,
  arith, All, subst, inl, inr, Bool-cases, string_eq, if◌then◌else◌,
}
use rudp_agent_stack.Base.Dict.{Dict, lookup, insert, contains, is_some, lookup-insert}
use rudp_agent_stack.Agent.Text.{is_empty}
use rudp_agent_stack.Agent.Values.{Value, Fields, get, end_object, truthy, Python}
use rudp_agent_stack.Agent.Paths.{other_error, FilePath}
use rudp_agent_stack.Agent.Action.{◌>>=◌}
use rudp_agent_stack.Agent.Frame.{>>=-eq-ok, Keeps, Keeps-bind, Keeps-ask}
use rudp_agent_stack.Agent.Reading.{
  tool_read_file-Keeps, tool_stream_read-Keeps, tool_filter_lines-Keeps,
}
use rudp_agent_stack.Agent.Disk.{Disk}
use rudp_agent_stack.Agent.Planner.{
  Step, Entry, Context, Plan, ExecutionMode, memory, stream, template_filter_lines, plan_step,
  read_step, make_step, filter_lines,
}
use rudp_agent_stack.Agent.Tools.{tool_write_artifact}
use rudp_agent_stack.Agent.Executor.{execute_step, execute_steps, finalize, execute_plan}

-- No step has its output under the key.
abbrev pub NotProduced : String → List Step → Type 0
NotProduced key = All (λ step. string_eq.beq step.produces key ≡ false)

module _ (py : Python) (root : FilePath) where
  -- The context after a step has the output of the step, or nothing new.
  Extended : Step → Context → Context → Type 0
  Extended step c c' =
      (output : Entry) × (c'
        ≡ (if is_empty step.produces then c else insert step.produces output c))

  execute_step-Extended :
      (step : Step) (c c' : Context) (d d' : Disk)
      → execute_step py root step c d ≡ (d', ok c')
      → Extended step c c'
  unfolding execute_step Extended
  execute_step-Extended step c c' d d' h =
      let input = >>=-eq-ok _ _ d d' c' h in
      let ran = >>=-eq-ok _ _ input.0 d' c' input.3 in
      (ran.1, sym (ground (arith, ap (λ p. p.1) ran.3)))

  Extended-lookup :
      (key : String) (step : Step) (c c' : Context)
      → string_eq.beq step.produces key ≡ false
      → Extended step c c'
      → lookup key c' ≡ lookup key c
  unfolding Extended
  Extended-lookup key step c c' ne (output, e) =
      ap (lookup key) e ∙ elim (Bool-cases (is_empty step.produces)) [
        | inl t ↦ rw t refl
        | inr f ↦ rw f (lookup-insert step.produces key output c ∙ rw ne refl)
      ]

  execute_steps-lookup :
      (key : String) (steps : List Step) (c c' : Context) (d d' : Disk)
      → NotProduced key steps
      → execute_steps py root steps c d ≡ (d', ok c')
      → lookup key c' ≡ lookup key c
  unfolding execute_steps
  execute_steps-lookup key [] c c' d d' ne h =
      ap (lookup key) (sym (ground (arith, ap (λ p. p.1) h)))
  execute_steps-lookup key (step ∷ rest) c c' d d' ne h =
      let first = >>=-eq-ok _ _ d d' c' h in
      execute_steps-lookup key rest first.1 c' first.0 d' ne.1 first.3
      ∙ Extended-lookup key step c first.1 ne.0
          (execute_step-Extended step c first.1 d first.0 first.2)

  filter-NotProduced :
      (payload : Fields) (mode : ExecutionMode) (out_file : Value)
      → truthy out_file ≡ false
      → NotProduced "final_output" (template_filter_lines py payload mode out_file)
        × NotProduced "plan_artifact_path" (template_filter_lines py payload mode out_file)
  unfolding template_filter_lines
  filter-NotProduced payload memory out_file e = rw e ((refl, (refl, tt)), (refl, (refl, tt)))
  filter-NotProduced payload stream out_file e = rw e ((refl, (refl, tt)), (refl, (refl, tt)))

  finalize-nothing :
      (plan : Plan) (c : Context) (d d' : Disk) (result : Fields)
      → lookup "final_output" c ≡ none
      → lookup "plan_artifact_path" c ≡ none
      → finalize py root plan.output_policy c d ≡ (d', ok result)
      → (result ≡ end_object) × (d' ≡ d)
  unfolding finalize ◌>>=◌
  finalize-nothing plan c d d' result none_out none_path h =
      let e : (d, ok end_object) ≡ (d', ok result) = rw (none_out, none_path) at h in
      (sym (ground (arith, ap (λ p. p.1) e)), sym (ap (λ p. p.0) e))

  -- Steps that only read keep the disk.
  read_step-disk :
      (target : Value) (mode : ExecutionMode) (c : Context)
      → Keeps (λ (d : Disk). d) (execute_step py root (read_step target mode) c)
  unfolding execute_step
  read_step-disk target memory c =
      Keeps-ask (λ d. d) _ _
        λ e. Keeps-bind (λ d. d) _ _ (tool_read_file-Keeps py root (λ d. d) _) λ output d. refl
  read_step-disk target stream c =
      Keeps-ask (λ d. d) _ _
        λ e. Keeps-bind (λ d. d) _ _ (tool_stream_read-Keeps py root (λ d. d) _) λ output d. refl

  filter_step-disk :
      (args : Dict String Value) (produces : String) (consumes : Option String) (c : Context)
      → Keeps
          (λ (d : Disk). d)
          (execute_step py root (make_step filter_lines args produces consumes) c)
  unfolding execute_step
  filter_step-disk args produces consumes c =
      Keeps-ask (λ d. d) _ _
        λ e.
          Keeps-bind (λ d. d) _ _ (tool_filter_lines-Keeps py root (λ d. d) args e) λ output d. refl

  filter-disk :
      (payload : Fields) (mode : ExecutionMode) (out_file : Value) (c : Context)
      → truthy out_file ≡ false
      → Keeps
          (λ (d : Disk). d)
          (execute_steps py root (template_filter_lines py payload mode out_file) c)
  unfolding template_filter_lines execute_steps
  filter-disk payload mode out_file c absent = rw absent (
      Keeps-bind (λ d. d) _ _ (read_step-disk (get "input_file" payload) mode c)
        λ c'. Keeps-bind (λ d. d) _ _ (filter_step-disk _ _ _ c') λ c'' d. refl)

  -- A filter without an output file reports nothing: when its plan is executed without an error, in
  -- memory or on a stream, the result is empty and the disk is as before, so that the lines that it found
  -- are neither in the answer nor in a file.
  pub execute_plan-filter_lost :
      (payload : Fields) (mode : ExecutionMode) (out_file : Value) (plan : Plan) (d d' : Disk)
      (result : Fields)
      → plan.steps ≡ template_filter_lines py payload mode out_file
      → truthy out_file ≡ false
      → lookup "final_output" plan.initial_context ≡ none
      → lookup "plan_artifact_path" plan.initial_context ≡ none
      → execute_plan py root plan d ≡ (d', ok result)
      → (result ≡ end_object) × (d' ≡ d)
  unfolding execute_plan
  execute_plan-filter_lost payload mode out_file plan d d' result steps absent no_out no_path h =
      let ran = >>=-eq-ok _ _ d d' result h in
      let ne = filter-NotProduced payload mode out_file absent in
      let at_end =
        λ (key : String) (n : NotProduced key (template_filter_lines py payload mode out_file)).
          execute_steps-lookup key plan.steps plan.initial_context ran.1 d ran.0
            (subst (NotProduced key) (sym steps) n) ran.2 in
      let (empty, kept) =
        finalize-nothing plan ran.1 ran.0 d' result (at_end "final_output" ne.0 ∙ no_out)
          (at_end "plan_artifact_path" ne.1 ∙ no_path) ran.3 in
      let read : ran.0 ≡ d =
        sym (
          ap (λ r. r.0)
            (ap (λ ss. execute_steps py root ss plan.initial_context d) (sym steps) ∙ ran.2))
        ∙ filter-disk payload mode out_file plan.initial_context absent d in
      (empty, kept ∙ read)

  -- The step that writes the plan.
  plan_step-fails :
      (path : String) (c c' : Context) (d d' : Disk)
      → contains "__plan__" c ≡ true
      → execute_step py root (plan_step path) c d ≢ (d', ok c')
  unfolding execute_step tool_write_artifact ◌>>=◌ lookup
  plan_step-fails path c c' d d' there h =
      let e : (d, err (other_error "NameError")) ≡ (d', ok c') = rw there at h in
      ground (arith, ap (λ p. p.1) e)

  pub execute_steps-plan_fails :
      (steps : List Step) (path : String) (c c' : Context) (d d' : Disk)
      → NotProduced "__plan__" steps
      → contains "__plan__" c ≡ true
      → execute_steps py root (steps ++ plan_step path ∷ []) c d ≢ (d', ok c')
  unfolding execute_steps
  execute_steps-plan_fails [] path c c' d d' ne there h =
      let first = >>=-eq-ok _ _ d d' c' h in plan_step-fails path c first.1 d first.0 there first.2
  execute_steps-plan_fails (step ∷ rest) path c c' d d' ne there h =
      let first = >>=-eq-ok _ _ d d' c' h in
      let kept =
        Extended-lookup "__plan__" step c first.1 ne.0
          (execute_step-Extended step c first.1 d first.0 first.2) in
      execute_steps-plan_fails rest path first.1 c' first.0 d' ne.1 (ap is_some kept ∙ there)
        first.3
