-- ===== src/Agent/Confined/Tools.antt =====
-- No step of a plan writes outside the sandbox.
use rudp_agent_stack.Base.{
  ◌≡◌, refl, String, true, false, Option, none, some, List, [], ◌∷◌, ok, arith, inl, inr,
  Bool-cases, ltb, length, string_eq,
}
use rudp_agent_stack.Base.Dict.{Dict, lookup}
use rudp_agent_stack.Bytes.{Bytes}
use rudp_agent_stack.Agent.Values.{Value, text, Python}
use rudp_agent_stack.Agent.Paths.{FilePath, under}
use rudp_agent_stack.Agent.Action.{Action}
use rudp_agent_stack.Agent.Frame.{Keeps, Keeps-bind, Keeps-ask, Keeps-ask_ok}
use rudp_agent_stack.Agent.Disk.{Disk, makedirs, dirname}
use rudp_agent_stack.Agent.Planner.{
  ToolName, read_file, stream_read, search_lines, filter_lines, hash_sha256, build_report,
  write_file, write_artifact, Step, Entry, Context, Plan, OutputPolicy, inline, artifact, dynamic,
}
use rudp_agent_stack.Agent.Loops.{Content}
use rudp_agent_stack.Agent.Tools.{
  validate_value, atomic_write, tool_write_file, tool_write_artifact, entry_text,
}
use rudp_agent_stack.Agent.Executor.{
  run_tool, execute_step, execute_steps, write_fallback_artifact, finalize, execute_plan,
  as_artifact, artifact_output, output_by, final_output, is_truthy, inline_limit,
}
use rudp_agent_stack.Agent.Confined.{
  file_at, validate_path-under, file_at-write_file, file_at-makedirs,
}
use rudp_agent_stack.Agent.Reading.{
  tool_read_file-Keeps, tool_stream_read-Keeps, tool_search_lines-Keeps, tool_filter_lines-Keeps,
  tool_hash_sha256-Keeps, tool_build_report-Keeps,
}

pub validate_value-under :
    (root : FilePath) (v : Value) (p : FilePath)
    → validate_value root v ≡ ok p
    → under root p ≡ true
validate_value-under root (text s) p h = validate_path-under root s p h
validate_value-under root v p h = absurd (ground arith)

module _ (py : Python) (root q : FilePath) (outside : under root q ≡ false) where
  abbrev pub Confined : {A : Type 0} → Action Disk A → Type 0
  Confined m = Keeps (file_at q) m

  pub atomic_write-Confined : (path : Value) (c : Content) → Confined (atomic_write py root path c)
  unfolding atomic_write
  atomic_write-Confined path c = Keeps-ask_ok (file_at q) _ _ λ p e.
      let inside = validate_value-under root path p e in
      Keeps-bind (file_at q) (makedirs py (dirname p)) _
        (file_at-makedirs py root q outside (dirname p))
        λ _. Keeps-ask (file_at q) _ _ λ b d. file_at-write_file py root q outside p b d inside

  tool_write_file-Confined :
      (args : Dict String Value) (e : Entry) → Confined (tool_write_file py root args e)
  unfolding tool_write_file
  tool_write_file-Confined args e =
      Keeps-ask (file_at q) _ _
        λ path. Keeps-bind (file_at q) _ _ (atomic_write-Confined path _) λ _ d. refl

  tool_write_artifact-Confined :
      (args : Dict String Value) (e : Entry) (context : Context)
      → Confined (tool_write_artifact py root args e context)
  unfolding tool_write_artifact
  tool_write_artifact-Confined args e context = Keeps-ask (file_at q) _ _ λ path.
      Keeps-ask (file_at q) _ _
        λ content. Keeps-bind (file_at q) _ _ (atomic_write-Confined path content) λ _ d. refl

  run_tool-Confined :
      (tool : ToolName) (step : Step) (e : Entry) (context : Context)
      → step.tool ≡ tool
      → Confined (run_tool py root step e context)
  run_tool-Confined read_file step e context h =
      rw h (tool_read_file-Keeps py root (file_at q) step.args)
  run_tool-Confined stream_read step e context h =
      rw h (tool_stream_read-Keeps py root (file_at q) step.args)
  run_tool-Confined search_lines step e context h =
      rw h (tool_search_lines-Keeps py root (file_at q) step.args e)
  run_tool-Confined filter_lines step e context h =
      rw h (tool_filter_lines-Keeps py root (file_at q) step.args e)
  run_tool-Confined hash_sha256 step e context h =
      rw h (tool_hash_sha256-Keeps py root (file_at q) e)
  run_tool-Confined build_report step e context h =
      rw h (tool_build_report-Keeps py root (file_at q) step.args e)
  run_tool-Confined write_file step e context h = rw h (tool_write_file-Confined step.args e)
  run_tool-Confined write_artifact step e context h =
      rw h (tool_write_artifact-Confined step.args e context)

  execute_step-Confined :
      (step : Step) (context : Context) → Confined (execute_step py root step context)
  unfolding execute_step
  execute_step-Confined step context = Keeps-ask (file_at q) _ _ λ e.
      Keeps-bind (file_at q) _ _ (run_tool-Confined step.tool step e context refl) λ output d. refl

  execute_steps-Confined :
      (steps : List Step) (context : Context) → Confined (execute_steps py root steps context)
  unfolding execute_steps
  execute_steps-Confined [] context = λ d. refl
  execute_steps-Confined (step ∷ rest) context =
      Keeps-bind (file_at q) _ _ (execute_step-Confined step context) (execute_steps-Confined rest)

  fallback-Confined :
      (b : Bytes) (context : Context) → Confined (write_fallback_artifact py root b context)
  unfolding write_fallback_artifact
  fallback-Confined b context = Keeps-bind (file_at q) _ _ (atomic_write-Confined _ _) λ _ d. refl

  as_artifact-Confined : (b : Bytes) (context : Context) → Confined (as_artifact py root b context)
  as_artifact-Confined b context =
      Keeps-bind (file_at q) _ _ (fallback-Confined b context) λ path d. refl

  artifact_output-Confined :
      (b : Bytes) (context : Context) (o : Option Entry)
      → Confined (artifact_output py root b context o)
  artifact_output-Confined b context none = as_artifact-Confined b context
  artifact_output-Confined b context (some path) = λ d. refl

  output_by-Confined :
      (policy : OutputPolicy) (output : Entry) (context : Context)
      → Confined (output_by py root policy output context)
  output_by-Confined inline output context = λ d. ground arith
  output_by-Confined artifact output context = artifact_output-Confined _ context _
  output_by-Confined dynamic output context =
      elim (Bool-cases (ltb inline_limit (length (py.encode (entry_text py root output))))) [
        | inl large ↦ rw large (as_artifact-Confined _ context)
        | inr small ↦ rw small (λ d. refl)
      ]

  final_output-Confined :
      (policy : OutputPolicy) (context : Context) (o : Option Entry)
      → Confined (final_output py root policy context o)
  final_output-Confined policy context none = λ d. refl
  final_output-Confined policy context (some output) =
      elim (Bool-cases (is_truthy py root output)) [
        | inl t ↦ rw t (output_by-Confined policy output context)
        | inr e ↦ rw e (λ d. refl)
      ]

  pub execute_plan-Confined : (plan : Plan) → Confined (execute_plan py root plan)
  unfolding execute_plan finalize
  execute_plan-Confined plan =
      Keeps-bind (file_at q) _ _ (execute_steps-Confined plan.steps plan.initial_context) λ context.
        Keeps-bind (file_at q) _ _
          (final_output-Confined plan.output_policy context (lookup "final_output" context))
          λ r d. refl
