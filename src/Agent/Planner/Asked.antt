-- ===== src/Agent/Planner/Asked.antt =====
-- A plan that is asked for ends with the step that writes it.
use rudp_agent_stack.Base.{
  ◌≡◌, refl, ℕ, ◌==◌, String, Bool, true, List, [], ◌∷◌, ◌++◌, ok, err, Result, ◌>>=◌, arith, inl,
  inr, Bool-cases, string_eq,
}
use rudp_agent_stack.Base.Dict.{lookup}
use rudp_agent_stack.Constants.{op_task_search_report, op_task_filter_lines, op_task_hash_and_store}
use rudp_agent_stack.Agent.Values.{Value, object, Fields, end_object, get, get_or, truthy, Python}
use rudp_agent_stack.Agent.Paths.{Error}
use rudp_agent_stack.Agent.Planner.{
  ExecutionMode, memory, stream, Step, Context, Plan, template_search_report, template_filter_lines,
  template_hash_and_store, select_template, return_plan, mode_for, size_of, make_plan, plan_step,
  artifact_path, build_plan,
}
use rudp_agent_stack.Agent.Executor.Outputs.{NotProduced}

search-NotProduced :
    (payload : Fields) (mode : ExecutionMode)
    → NotProduced "__plan__" (template_search_report payload mode)
unfolding template_search_report
search-NotProduced payload memory = (refl, (refl, (refl, tt)))
search-NotProduced payload stream = (refl, (refl, (refl, tt)))

filter-NotProduced :
    (py : Python) (payload : Fields) (mode : ExecutionMode) (out_file : Value)
    → NotProduced "__plan__" (template_filter_lines py payload mode out_file)
unfolding template_filter_lines
filter-NotProduced py payload memory out_file = elim (Bool-cases (truthy out_file)) [
  | inl t ↦ rw t (refl, (refl, (refl, (refl, tt))))
  | inr e ↦ rw e (refl, (refl, tt))
]
filter-NotProduced py payload stream out_file = elim (Bool-cases (truthy out_file)) [
  | inl t ↦ rw t (refl, (refl, (refl, (refl, tt))))
  | inr e ↦ rw e (refl, (refl, tt))
]

abbrev OfSteps : Result Error (List Step × (Bool × String)) → Type 0
OfSteps (ok r) = NotProduced "__plan__" r.0
OfSteps (err e) = Unit

template-NotProduced :
    (py : Python) (opcode : ℕ) (payload : Fields) (mode : ExecutionMode)
    → OfSteps (select_template py opcode payload mode)
unfolding template_hash_and_store
template-NotProduced py opcode payload mode = elim (Bool-cases (opcode == op_task_search_report)) [
  | inl a ↦ rw a (search-NotProduced payload mode)
  | inr a ↦ rw a (elim (Bool-cases (opcode == op_task_filter_lines)) [
    | inl b ↦ rw b (filter-NotProduced py payload mode (get "out_file" payload))
    | inr b ↦ rw b (elim (Bool-cases (opcode == op_task_hash_and_store)) [
      | inl c ↦ rw c (refl, (refl, (refl, (refl, tt))))
      | inr c ↦ rw c tt
    ])
  ])
]

-- A plan that was asked for ends with the step that writes it.
pub plan-EndsWithStep :
    (py : Python) (opcode : ℕ) (payload : Fields) (context : Context) (plan : Plan)
    → return_plan (get_or "options" (object end_object) payload) ≡ ok true
    → build_plan py opcode payload context ≡ ok plan
    → (steps : List Step) × (path : String) × (plan.steps ≡ steps ++ plan_step path ∷ [])
      × NotProduced "__plan__" steps
unfolding build_plan
plan-EndsWithStep py opcode payload context plan asked h =
    let mode = mode_for (size_of (lookup "file_size" context)) in
    go mode (select_template py opcode payload mode) (template-NotProduced py opcode payload mode)
      (rw asked at h)
  where
    go :
        (mode : ExecutionMode) (t : Result Error (List Step × (Bool × String)))
        → OfSteps t
        → (do template ← t; ok (make_plan py opcode payload context mode template true)) ≡ ok plan
        → (steps : List Step) × (path : String) × (plan.steps ≡ steps ++ plan_step path ∷ [])
          × NotProduced "__plan__" steps
    go mode (err e) o k = absurd (ground arith)
    go mode (ok t) o k = (t.0, artifact_path py context "plan.json", ground arith, o)
