-- ===== src/Agent/Planner/Wiring.antt =====
-- The steps of a plan fit together.
use rudp_agent_stack.Base.{
  ◌≡◌, refl, ℕ, String, Bool, true, false, Option, none, some, List, [], ◌∷◌, ◌++◌, ok, err, Result,
  ◌==◌, arith, inl, inr, Bool-cases, string_eq, Member, subst, ◌>>=◌,
}
use rudp_agent_stack.Base.Dict.{lookup}
use rudp_agent_stack.Constants.{op_task_search_report, op_task_filter_lines, op_task_hash_and_store}
use rudp_agent_stack.Agent.Values.{Value, object, Fields, end_object, get, get_or, truthy, Python}
use rudp_agent_stack.Agent.Paths.{Error}
use rudp_agent_stack.Agent.Planner.{
  ExecutionMode, memory, stream, Step, Context, Plan, select_template, return_plan, build_plan,
  template_search_report, template_filter_lines, template_hash_and_store, plan_step, mode_for,
  make_plan, size_of, artifact_path,
}

-- The input of a step is there.
abbrev pub IsFed : Option String → List String → Type 0
IsFed none keys = Unit
IsFed (some key) keys = Member key keys

-- Each step finds its input among the keys at the start and the outputs of the steps before it.
abbrev pub IsWired : List String → List Step → Type 0
IsWired keys [] = Unit
IsWired keys (step ∷ rest) = IsFed step.consumes keys × IsWired (step.produces ∷ keys) rest

IsWired-append :
    (keys : List String) (steps : List Step) (last : Step)
    → last.consumes ≡ none
    → IsWired keys steps
    → IsWired keys (steps ++ last ∷ [])
IsWired-append keys [] last e h = (rw e tt, tt)
IsWired-append keys (step ∷ rest) last e h =
    (h.0, IsWired-append (step.produces ∷ keys) rest last e h.1)

search-IsWired :
    (payload : Fields) (mode : ExecutionMode) → IsWired [] (template_search_report payload mode)
unfolding template_search_report
search-IsWired payload memory = (tt, (inl refl, (inl refl, tt)))
search-IsWired payload stream = (tt, (inl refl, (inl refl, tt)))

filter-IsWired :
    (py : Python) (payload : Fields) (mode : ExecutionMode) (out_file : Value)
    → IsWired [] (template_filter_lines py payload mode out_file)
unfolding template_filter_lines
filter-IsWired py payload memory out_file = elim (Bool-cases (truthy out_file)) [
  | inl t ↦ rw t (tt, (inl refl, (inl refl, (tt, tt))))
  | inr e ↦ rw e (tt, (inl refl, tt))
]
filter-IsWired py payload stream out_file = elim (Bool-cases (truthy out_file)) [
  | inl t ↦ rw t (tt, (inl refl, (inl refl, (tt, tt))))
  | inr e ↦ rw e (tt, (inl refl, tt))
]

hash-IsWired : (py : Python) (payload : Fields) → IsWired [] (template_hash_and_store py payload)
unfolding template_hash_and_store
hash-IsWired py payload = (tt, (inl refl, (inl refl, (tt, tt))))

-- What holds of a result that is there.
abbrev OfSteps : Result Error (List Step × (Bool × String)) → Type 0
OfSteps (ok r) = IsWired [] r.0
OfSteps (err e) = Unit

template-IsWired :
    (py : Python) (opcode : ℕ) (payload : Fields) (mode : ExecutionMode)
    → OfSteps (select_template py opcode payload mode)
template-IsWired py opcode payload mode = elim (Bool-cases (opcode == op_task_search_report)) [
  | inl a ↦ rw a (search-IsWired payload mode)
  | inr a ↦ rw a (elim (Bool-cases (opcode == op_task_filter_lines)) [
    | inl b ↦ rw b (filter-IsWired py payload mode (get "out_file" payload))
    | inr b ↦ rw b (elim (Bool-cases (opcode == op_task_hash_and_store)) [
      | inl c ↦ rw c (hash-IsWired py payload)
      | inr c ↦ rw c tt
    ])
  ])
]

-- Every plan fits together: each of its steps takes its input, if it takes one, from the output of a
-- step before it, whatever the payload and the context, with the step that writes the plan or not.
pub build_plan-IsWired :
    (py : Python) (opcode : ℕ) (payload : Fields) (context : Context) (plan : Plan)
    → build_plan py opcode payload context ≡ ok plan
    → IsWired [] plan.steps
unfolding build_plan
build_plan-IsWired py opcode payload context plan h =
    let mode = mode_for (size_of (lookup "file_size" context)) in
    go mode (select_template py opcode payload mode)
      (return_plan (get_or "options" (object end_object) payload))
      (template-IsWired py opcode payload mode) h
  where
    go :
        (mode : ExecutionMode) (t : Result Error (List Step × (Bool × String)))
        (w : Result Error Bool)
        → OfSteps t
        → (do
          template ← t
          with_plan ← w
          ok (make_plan py opcode payload context mode template with_plan))
          ≡ ok plan
        → IsWired [] plan.steps
    go mode (err e) w o k = absurd (ground arith)
    go mode (ok t) (err e) o k = absurd (ground arith)
    go mode (ok t) (ok true) o k =
        let e : (t.0 ++ plan_step (artifact_path py context "plan.json") ∷ []) ≡ plan.steps =
          ground arith in
        subst (IsWired []) e (IsWired-append [] t.0 _ refl o)
    go mode (ok t) (ok false) o k =
        let e : t.0 ≡ plan.steps = ground arith in subst (IsWired []) e o
