-- ===== src/Agent/Executor/Filter.antt =====
-- What the tasks that filter a file do.
use rudp_agent_stack.Base.{
  ◌≡◌, ◌≢◌, refl, ap, ◌∙◌, String, Bool, true, false, some, List, [], ◌∷◌, ok, inl, inr, Bool-cases,
  string_eq, ltb, length,
}
use mathlib.Core.List.{filter}
use rudp_agent_stack.Base.Dict.{lookup, insert, lookup-insert_self}
use rudp_agent_stack.Bytes.{Bytes}
use rudp_agent_stack.Constants.{max_file_size}
use rudp_agent_stack.Agent.Text.{◌<>◌, is_empty, occurs, join, splitlines, universal_newlines}
use rudp_agent_stack.Agent.Paths.Names.{is_empty-append}
use rudp_agent_stack.Agent.Values.{null, text, Fields, get, Python}
use rudp_agent_stack.Agent.Paths.{FilePath, path_eq, validate_path}
use rudp_agent_stack.Agent.Action.{◌>>=◌}
use rudp_agent_stack.Agent.Disk.{Disk, getsize, read_file}
use rudp_agent_stack.Agent.Planner.{
  Step, Entry, plain, found, Context, memory, template_filter_lines,
}
use rudp_agent_stack.Agent.Loops.{str, lines, filter_from, match_lines}
use rudp_agent_stack.Agent.Tools.{
  atomic_write, tool_read_file, tool_filter_lines, tool_write_file, tool_build_report, iterate,
}
use rudp_agent_stack.Agent.Writing.{atomic_write-files}
use rudp_agent_stack.Agent.Executor.{resolve_input, run_tool, execute_step, execute_steps}

pub false_ne_true : false ≢ true
false_ne_true e = cc

abbrev pub dec_true : (b : Bool) → Dec (b ≡ true)
dec_true true = yes refl
dec_true false = no false_ne_true

-- The lines that hold a pattern, in their order.
abbrev pub matching : String → List String → List String
matching p = filter (λ l. dec_true (occurs p l))

filter_from-eq-matching : (p : String) (ls : List String) → filter_from p ls ≡ matching p ls
unfolding filter_from
filter_from-eq-matching p [] = refl
filter_from-eq-matching p (l ∷ ls) = elim (Bool-cases (occurs p l)) [
  | inl t ↦ rw t (ap (◌∷◌ l) (filter_from-eq-matching p ls))
  | inr e ↦ rw e (filter_from-eq-matching p ls)
]

match_lines-matching :
    (p : String) (ls : List String)
    → match_lines filter_from (text p) (lines ls) ≡ ok (matching p ls)
unfolding filter_from
match_lines-matching p [] = refl
match_lines-matching p (l ∷ ls) = ap (λ r. ok r) (filter_from-eq-matching p (l ∷ ls))

module _ (py : Python) (root : FilePath) where
  -- The file of a task: it lies in the sandbox, is small enough and holds a text.
  pub record IsInput (name : String) (content : String) (d : Disk) : Type 0 where
    pub path : FilePath
    pub bytes : Bytes
    pub valid : validate_path root name ≡ ok path
    pub small : ltb max_file_size (length bytes) ≡ false
    pub sized : getsize py path d ≡ ok (length bytes)
    pub there : read_file py path d ≡ ok bytes
    pub decoded : py.decode bytes ≡ some content

  read-IsInput :
      (name content : String) (d : Disk) (i : IsInput name content d)
      → tool_read_file py root (("path", text name) ∷ []) d
        ≡ (d, ok (plain (text (universal_newlines content))))
  unfolding tool_read_file ◌>>=◌ lookup
  read-IsInput name content d i = rw (i.valid, i.sized, i.small, i.there, i.decoded) refl

  filter-found :
      (p content : String) (d : Disk)
      → tool_filter_lines py root (("pattern", text p) ∷ []) (plain (text content)) d
        ≡ (d, ok (found (matching p (splitlines content))))
  unfolding tool_filter_lines iterate ◌>>=◌ lookup
  filter-found p content d = rw (match_lines-matching p (splitlines content)) refl

  write-found :
      (out : String) (ls : List String) (d d' : Disk)
      → atomic_write py root (text out) (str (join "\n" ls)) d ≡ (d', ok tt)
      → tool_write_file py root (("path", text out) ∷ []) (found ls) d
        ≡ (d', ok (plain (text "SUCCESS")))
  unfolding tool_write_file ◌>>=◌ lookup
  write-found out ls d d' h = rw h refl

  abbrev done : String → String
  done out = "Filtered lines written to " <> out

  report-done :
      (out : String) (d : Disk)
      → tool_build_report py root
          (("format", text "action_completion") ∷ ("msg", text (done out)) ∷ [])
          (plain null)
          d
        ≡ (d, ok (plain (text (done out))))
  unfolding tool_build_report ◌>>=◌ lookup
  report-done out d = rw (is_empty-append "Filtered lines written to " out refl) refl

  step-outcome :
      (step : Step) (context : Context) (input_data output : Entry) (d d' : Disk)
      → resolve_input py root step.tool step.consumes context ≡ ok input_data
      → run_tool py root step input_data context d ≡ (d', ok output)
      → is_empty step.produces ≡ false
      → execute_step py root step context d ≡ (d', ok (insert step.produces output context))
  unfolding execute_step ◌>>=◌
  step-outcome step context input_data output d d' e r n = rw (e, r, n) refl

  then-outcome :
      (step : Step) (rest : List Step) (context context' : Context) (d d' : Disk)
      → execute_step py root step context d ≡ (d', ok context')
      → execute_steps py root (step ∷ rest) context d ≡ execute_steps py root rest context' d'
  unfolding execute_steps ◌>>=◌
  then-outcome step rest context context' d d' e = rw e refl

  -- A filter whose output goes to a file, for an input that is read whole, when the write succeeds. After
  -- its four steps the file of the path that `validate_path` gives for the output file has exactly the
  -- lines of the input that hold the pattern, in their order, joined by newlines and encoded; all other
  -- files are as before, and what is reported is the message.
  pub execute_steps-filter :
      (payload : Fields) (name content p out : String) (context : Context) (d d' : Disk)
      → get "input_file" payload ≡ text name
      → get "query" payload ≡ text p
      → is_empty out ≡ false
      → IsInput name content d
      → atomic_write py root
          (text out)
          (str (join "\n" (matching p (splitlines (universal_newlines content)))))
          d
        ≡ (d', ok tt)
      → (context' : Context) × (execute_steps py root
            (template_filter_lines py payload memory (text out))
            context
            d
          ≡ (d', ok context'))
        × (lookup "final_output" context' ≡ some (plain (text (done out))))
        × (path : FilePath) × (validate_path root out ≡ ok path)
        × (d'.files
            ≡ insert path
                (py.encode (join "\n" (matching p (splitlines (universal_newlines content)))))
                d.files)
  unfolding template_filter_lines
  execute_steps-filter payload name content p out context d d' input query given i write =
      let kept = matching p (splitlines (universal_newlines content)) in
      let wrote = atomic_write-files py root out (join "\n" kept) d d' write in
      let c1 = insert "file_content" (plain (text (universal_newlines content))) context in
      let c2 = insert "filtered_lines" (found kept) c1 in
      let c3 = insert "write_status" (plain (text "SUCCESS")) c2 in
      let c4 = insert "final_output" (plain (text (done out))) c3 in
      (
        c4,
        rw (input, query, given)
            (then-outcome _ _ context c1 d d (
                step-outcome _ context (plain null) (plain (text (universal_newlines content))) d d
                  refl (read-IsInput name content d i) refl)
              ∙ then-outcome _ _ c1 c2 d d (
                  step-outcome _ c1 (plain (text (universal_newlines content))) (found kept) d d
                    (rw (lookup-insert_self "file_content" _ context) refl)
                    (filter-found p (universal_newlines content) d) refl)
              ∙ then-outcome _ _ c2 c3 d d' (
                  step-outcome _ c2 (found kept) (plain (text "SUCCESS")) d d'
                    (rw (lookup-insert_self "filtered_lines" _ c1) refl)
                    (write-found out kept d d' write) refl)
              ∙ then-outcome _ _ c3 c4 d' d' (
                  step-outcome _ c3 (plain null) (plain (text (done out))) d' d' refl
                    (report-done out d') refl)
              ∙ unfold execute_steps in refl),
        lookup-insert_self "final_output" _ c3,
        wrote.0,
        wrote.1,
        wrote.2,
      )
