-- ===== src/Agent/Guarantees/Shared.antt =====
-- Tasks of different clients share one place in the cache.
use rudp_agent_stack.Base.{
  ◌≡◌, refl, ap, ◌∙◌, ℕ, ◌==◌, String, true, none, some, ◌∷◌, ok, length, drop, string_eq, nat_eq,
}
use rudp_agent_stack.Bytes.{Bytes}
use rudp_agent_stack.Constants.{header_size}
use rudp_agent_stack.Rudp.Float.{Float}
use rudp_agent_stack.Idempotency.{key_eq, is_fresh, get_response}
use rudp_agent_stack.Envelope.{AppHeader}
use rudp_agent_stack.Agent.Values.{object, Fields, loaded, Python}
use rudp_agent_stack.Agent.Paths.{FilePath}
use rudp_agent_stack.Agent.Action.{◌>>=◌}
use rudp_agent_stack.Agent.Handlers.{Agent, Surroundings, response}
use rudp_agent_stack.Agent.Handlers.Tasks.{handle_task}
use rudp_agent_stack.Agent.Dispatcher.{handler_for, on_task, dispatch}
use rudp_agent_stack.Agent.Server.{store, process_request}
use rudp_agent_stack.Agent.Guarantees.{key_of, answer_at}
use rudp_agent_stack.Agent.Guarantees.Replay.{Carries, process-new, process_request-decoded}

module _ (f : Float) (py : Python) (root : FilePath) where
  -- The answer that a task with these numbers has left.
  abbrev pub HasLeft : ℕ → ℕ → Bytes → f.F → Agent f → Type 0
  HasLeft request_id opcode bs t s =
      answer_at f py root ("default_client", (request_id, opcode)) s
      ≡ some (record { response_data = bs; timestamp = t })

  handle_task-left :
      (now : Surroundings f) (request_id opcode : ℕ) (payload : Bytes) (fields : Fields) (b : ℕ)
      (bs : Bytes) (t : f.F) (s : Agent f)
      → py.loads payload ≡ loaded (object fields)
      → HasLeft request_id opcode (b ∷ bs) t s
      → is_fresh f now.handled_at (record { response_data = b ∷ bs; timestamp = t }) ≡ true
      → handle_task f py root now request_id opcode none payload s ≡ (s, ok (response (b ∷ bs)))
  unfolding handle_task get_response ◌>>=◌
  handle_task-left now request_id opcode payload fields b bs t s json left fresh =
      rw (json, left, fresh) refl

  dispatch-left :
      (now : Surroundings f) (header : AppHeader) (payload : Bytes) (fields : Fields) (b : ℕ)
      (bs : Bytes) (t : f.F) (s : Agent f)
      → handler_for header.opcode ≡ some on_task
      → py.loads payload ≡ loaded (object fields)
      → HasLeft header.request_id header.opcode (b ∷ bs) t s
      → is_fresh f now.handled_at (record { response_data = b ∷ bs; timestamp = t }) ≡ true
      → dispatch f py root now header payload none s ≡ (s, ok (b ∷ bs))
  unfolding dispatch
  dispatch-left now header payload fields b bs t s task json left fresh =
      rw
        (
          task,
          handle_task-left now header.request_id header.opcode payload fields b bs t s json left
              fresh,
        )
        refl

  -- The answer to another client's task. When a task with side effects has left its answer, the first
  -- task that any other client sends with the same request id and opcode gets that answer while it is
  -- fresh, whatever the new task asks for; nothing is planned or executed, and no file changes.
  pub process_request-shared :
      (now : Surroundings f) (id : String) (data_ : Bytes) (header : AppHeader) (fields : Fields)
      (b : ℕ) (bs : Bytes) (t : f.F) (s : Agent f)
      → Carries f py root data_ header
      → (length (drop header_size data_) == header.payload_len) ≡ true
      → handler_for header.opcode ≡ some on_task
      → py.loads (drop header_size data_) ≡ loaded (object fields)
      → answer_at f py root (key_of f py root id header) s ≡ none
      → HasLeft header.request_id header.opcode (b ∷ bs) t s
      → is_fresh f now.handled_at (record { response_data = b ∷ bs; timestamp = t }) ≡ true
      → ((process_request f py root now id data_ s).1 ≡ b ∷ bs)
        × ((process_request f py root now id data_ s).0.disk ≡ s.disk)
  process_request-shared now id data_ header fields b bs t s carries framed task json new left
        fresh =
      let payload = drop header_size data_ in
      let e : process_request f py root now id data_ s
          ≡ store f py root now id header (s, ok (b ∷ bs)) =
        process_request-decoded f py root now id data_ header s carries
        ∙ process-new f py root now id header payload s framed new
        ∙ ap (store f py root now id header)
            (dispatch-left now header payload fields b bs t s task json left fresh) in
      (ap (λ p. p.1) e, ap (λ p. p.0.disk) e)
