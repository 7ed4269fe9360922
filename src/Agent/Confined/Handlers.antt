-- ===== src/Agent/Confined/Handlers.antt =====
-- What no handler touches: a view of the agent that is the same as long as the files outside the sandbox
-- and the answers to other clients are.
use rudp_agent_stack.Base.{
  ◌≡◌, refl, ◌∙◌, String, Bool, false, Option, none, some, List, [], ◌∷◌, ok, err, Result, ℕ,
  nat_eq, string_eq,
}
use rudp_agent_stack.Base.Dict.{lookup}
use rudp_agent_stack.Bytes.{Bytes}
use rudp_agent_stack.Exceptions.{Py}
use rudp_agent_stack.Rudp.Float.{Float}
use rudp_agent_stack.Upload.{Write, UploadSession, UploadSessionManager, Message, apply_chunk}
use rudp_agent_stack.Idempotency.{key_eq, get_response, store_response}
use rudp_agent_stack.Agent.Values.{Value, text, array, object, get, Python}
use rudp_agent_stack.Agent.Paths.{Error, FilePath, under}
use rudp_agent_stack.Agent.Frame.{Keeps, Keeps-bind, Keeps-ask, Keeps-ask_ok}
use rudp_agent_stack.Agent.Disk.{Disk, append_file, write_file, write_at, makedirs, dirname}
use rudp_agent_stack.Agent.Handlers.{Agent, Surroundings, on_disk}
use rudp_agent_stack.Agent.Handlers.Files.{handle_get, handle_append, handle_list}
use rudp_agent_stack.Agent.Handlers.Uploads.{
  handle_put_meta, handle_put_chunk, write_all, apply_chunk_on, settled, apply_chunk_at,
  apply_chunk_to,
}
use rudp_agent_stack.Agent.Confined.{
  file_at, validate_path-under, file_at-append_file, file_at-write_file, file_at-write_at,
  file_at-makedirs,
}
use rudp_agent_stack.Agent.Confined.Tools.{Confined, validate_value-under}

module _ (f : Float) (py : Python) (root : FilePath) where
  -- The files outside the sandbox are the same.
  abbrev pub SameOutside : Disk → Disk → Type 0
  SameOutside d d' = (q : FilePath) → under root q ≡ false → file_at q d ≡ file_at q d'

  -- A view that shows no file of the sandbox, no session, and no answer to "default_client".
  pub record Spares {X : Type 0} (view : Agent f → X) : Type 0 where
    pub files :
        (s : Agent f) (d : Disk) → SameOutside d s.disk → view (record s { disk = d }) ≡ view s
    pub sessions :
        (s : Agent f) (m : UploadSessionManager f)
        → view (record s { session_manager = m }) ≡ view s
    pub stored :
        (s : Agent f) (request_id opcode : ℕ) (bs : Bytes) (now : f.F)
        → view (record s {
          idempotency_cache =
              store_response f ("default_client", (request_id, opcode)) bs now s.idempotency_cache;
        })
          ≡ view s
    pub looked_up :
        (s : Agent f) (request_id opcode : ℕ) (now : f.F)
        → view (record s {
          idempotency_cache =
              (get_response f ("default_client", (request_id, opcode)) now s.idempotency_cache).0;
        })
          ≡ view s

module _ (f : Float) (py : Python) (root q : FilePath) (outside : under root q ≡ false) where
  write_all-Confined : (ws : List Write) → Confined py root q outside (write_all f py root ws)
  unfolding write_all
  write_all-Confined [] = λ d. refl
  write_all-Confined (w ∷ ws) = Keeps-ask_ok (file_at q) _ _ λ p e.
      Keeps-bind (file_at q) (write_at py p w.offset w.data_) _
        (λ d.
          file_at-write_at py root q outside p w.offset w.data_ d
            (validate_path-under root w.filename p e))
        λ _. write_all-Confined ws

module _ (f : Float) (py : Python) (root : FilePath) {X : Type 0} (view : Agent f → X)
    (spares : Spares f py root view) where
  pub handle_get-Keeps : (payload : Bytes) → Keeps view (handle_get f py root payload)
  unfolding handle_get
  handle_get-Keeps payload = Keeps-ask view _ _ λ _. Keeps-ask view _ _ λ v.
      Keeps-ask view _ _ λ fields. Keeps-ask view _ _ λ filename. Keeps-ask view _ _ λ p.
        Keeps-ask view _ _ λ there. Keeps-ask view _ _ λ _.
          Keeps-ask view _ _ λ size. Keeps-ask view _ _ λ _. Keeps-ask view _ _ λ content s. refl

  pub handle_append-Keeps : (payload : Bytes) → Keeps view (handle_append f py root payload)
  unfolding handle_append
  handle_append-Keeps payload = Keeps-ask view _ _ λ _. Keeps-ask view _ _ λ decoded.
      Keeps-ask view _ _ λ fields. Keeps-ask view _ _ λ filename. Keeps-ask_ok view _ _ λ p e.
        Keeps-ask view _ _ λ there. Keeps-ask view _ _ λ _. Keeps-ask view _ _ λ size.
          Keeps-ask view _ _ λ _.
            Keeps-bind view (on_disk f (append_file py p decoded.1)) _
              (λ s. spares.files s _ λ q outside.
                file_at-append_file py root q outside p decoded.1 s.disk
                  (validate_path-under root filename p e))
              λ _. Keeps-ask view _ _ λ final_size s. refl

  pub handle_list-Keeps : (now : Surroundings f) → Keeps view (handle_list f py root now)
  unfolding handle_list
  handle_list-Keeps now = Keeps-ask view _ _ λ names. Keeps-ask view _ _ λ files s. refl

  pub handle_put_meta-Keeps :
      (now : Surroundings f) (payload : Bytes) → Keeps view (handle_put_meta f py root now payload)
  unfolding handle_put_meta
  handle_put_meta-Keeps now payload = Keeps-ask view _ _ λ meta. Keeps-ask view _ _ λ fields.
      Keeps-ask view _ _ λ _. Keeps-ask_ok view _ _ λ p e. Keeps-ask view _ _ λ total_size.
        Keeps-ask view _ _ λ _. Keeps-ask view _ _ λ there. Keeps-ask view _ _ λ _.
          Keeps-bind view (on_disk f (makedirs py (dirname p))) _
            (λ s.
              spares.files s _ λ q outside. file_at-makedirs py root q outside (dirname p) s.disk)
            λ _.
              Keeps-bind view (on_disk f (write_file py p [])) _
                (λ s. spares.files s _ λ q outside.
                  file_at-write_file py root q outside p [] s.disk
                    (validate_value-under root (get "filename" fields) p e))
                λ _. Keeps-bind view _ _ (λ s. spares.sessions s _) λ id s. refl

  both :
      (s : Agent f) (d : Disk) (m : UploadSessionManager f)
      → SameOutside f py root d s.disk
      → view (record s { disk = d; session_manager = m }) ≡ view s
  both s d m h = spares.sessions (record s { disk = d }) m ∙ spares.files s d h

  settled-Keeps :
      (id : String) (offset : ℕ) (now : f.F) (r : Py (Bool × Message)) (m : UploadSessionManager f)
      (s : Agent f) (d : Disk × Result Error (Unit {0}))
      → SameOutside f py root d.0 s.disk
      → view (settled f py root id offset now r m s d).0 ≡ view s
  settled-Keeps id offset now r m s (d, err e) h = both s d _ h
  settled-Keeps id offset now (ok r) m s (d, ok _) h = both s d _ h
  settled-Keeps id offset now (err e) m s (d, ok _) h = both s d _ h

  apply_chunk_on-Keeps :
      (id : String) (offset : ℕ) (chunk : Bytes) (now : f.F)
      → Keeps view (apply_chunk_on f py root id offset chunk now)
  unfolding apply_chunk_on
  apply_chunk_on-Keeps id offset chunk now s =
      let applied =
        apply_chunk f id offset chunk now (record (s.session_manager) { writes = [] }) in
      settled-Keeps id offset now applied.1 applied.0 s
        (write_all f py root applied.0.writes s.disk)
        (λ q outside. write_all-Confined f py root q outside applied.0.writes s.disk)

  apply_chunk_at-Keeps :
      (id : String) (offset : Option ℕ) (chunk : Bytes) (now : f.F) (o : Option (UploadSession f))
      → Keeps view (apply_chunk_at f py root id offset chunk now o)
  apply_chunk_at-Keeps id (some offset) chunk now o = apply_chunk_on-Keeps id offset chunk now
  apply_chunk_at-Keeps id none chunk now none = λ s. refl
  apply_chunk_at-Keeps id none chunk now (some session) = λ s. spares.sessions s _

  apply_chunk_to-Keeps :
      (v : Value) (offset : Option ℕ) (chunk : Bytes) (now : f.F)
      → Keeps view (apply_chunk_to f py root v offset chunk now)
  apply_chunk_to-Keeps (text id) offset chunk now s =
      apply_chunk_at-Keeps id offset chunk now (lookup id s.session_manager.sessions) s
  apply_chunk_to-Keeps (array vs) offset chunk now s = refl
  apply_chunk_to-Keeps (object vs) offset chunk now s = refl
  apply_chunk_to-Keeps v offset chunk now s = refl

  pub handle_put_chunk-Keeps :
      (now : Surroundings f) (payload : Bytes) → Keeps view (handle_put_chunk f py root now payload)
  unfolding handle_put_chunk
  handle_put_chunk-Keeps now payload = Keeps-ask view _ _ λ decoded. Keeps-ask view _ _ λ fields.
      Keeps-ask view _ _ λ _. Keeps-ask view _ _ λ _.
        Keeps-bind view _ _
          (apply_chunk_to-Keeps (get "upload_id" fields) _ decoded.1 now.handled_at) λ r s. refl
