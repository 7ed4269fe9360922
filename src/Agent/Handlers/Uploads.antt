-- ===== src/Agent/Handlers/Uploads.antt =====
-- server/agent/handlers/put.py: the start of an upload and its chunks. The server keeps its sessions in
-- strict mode: a chunk is one write at most, and where the write raises, the session has only been
-- looked up.
use rudp_agent_stack.Base.{
  ℕ, String, Bool, true, false, not, ◌&&◌, ◌||◌, Option, none, some, List, [], ◌∷◌, ok, err, Result,
  ltb, ◌==◌, length, string_eq,
}
use rudp_agent_stack.Base.Dict.{lookup}
use rudp_agent_stack.Bytes.{Bytes}
use rudp_agent_stack.Constants.{max_file_size}
use rudp_agent_stack.Exceptions as Exceptions
use rudp_agent_stack.Exceptions.{
  Py, Exception, session_not_found, overlapping_chunk, out_of_order_chunk,
}
use rudp_agent_stack.Rudp.Float.{Float}
use rudp_agent_stack.Upload.{
  Message, duplicate_ignored, upload_complete, chunk_applied, Write, UploadSession,
  UploadSessionManager, create_session, get_session, apply_chunk,
}
use rudp_agent_stack.Agent.Text.{◌<>◌, decimal}
use rudp_agent_stack.Agent.Values.{
  Value, truth, int, text, array, object, end_object, field, get, get_or, truthy, is_null, Loaded,
  loaded, not_utf8, not_json, Python,
}
use rudp_agent_stack.Agent.Paths.{Error, value_error, other_error, FilePath, validate_path}
use rudp_agent_stack.Agent.Action.{Action, pure, raise_if, from_result, ◌>>=◌, ◌>>◌}
use rudp_agent_stack.Agent.Disk.{Disk, exists, dirname, write_file, write_at, makedirs}
use rudp_agent_stack.Agent.Planner.{shown}
use rudp_agent_stack.Agent.Tools.{validate_value}
use rudp_agent_stack.Agent.Handlers.{
  Agent, Surroundings, Answer, answer, on_disk, as_object, decode_mixed,
}

abbrev pub json_for_put : Loaded → Result Error Value
json_for_put (loaded v) = ok v
json_for_put (not_utf8 t) = err (value_error t)
json_for_put (not_json t) = err (value_error "Invalid JSON payload")

-- A number, as which Python counts True and False too.
abbrev pub number_of : Value → Option ℕ
number_of (int n) = some n
number_of (truth true) = some 1
number_of (truth false) = some 0
number_of v = none

abbrev pub or_type_error : Option ℕ → Result Error ℕ
or_type_error none = err (other_error "TypeError")
or_type_error (some n) = ok n

-- A text that has passed validate_path.
abbrev pub text_or_empty : Value → String
text_or_empty (text s) = s
text_or_empty v = ""

abbrev message_text : Message → String
message_text duplicate_ignored = "Duplicate ignored"
message_text upload_complete = "Upload Complete"
message_text chunk_applied = "Chunk Applied"

abbrev is_number : ℕ → Option ℕ → Bool
is_number n none = false
is_number n (some m) = n == m

module _ (f : Float) (py : Python) (root : FilePath) where
  unfoldable pub handle_put_meta : Surroundings f → Bytes → Action (Agent f) Answer
  handle_put_meta now payload = do
    meta ← from_result (json_for_put (py.loads payload))
    fields ← from_result (as_object meta)
    let filename = get "filename" fields
    raise_if (not (truthy filename) || is_null (get "total_size" fields))
        (value_error "Missing 'filename' or 'total_size'")
    abs_path ← from_result (validate_value root filename)
    total_size ← from_result (or_type_error (number_of (get "total_size" fields)))
    raise_if (ltb max_file_size total_size) (
        value_error
          ("File size " <> (decimal total_size <> (" exceeds limit " <> decimal max_file_size))))
    there ← λ s. (s, ok (exists abs_path s.disk))
    raise_if (there && not (truthy (get_or "overwrite" (truth false) fields)))
        (value_error ("File " <> (text_or_empty filename <> " already exists (overwrite=False)")))
    on_disk f (makedirs py (dirname abs_path))
    on_disk f (write_file py abs_path [])
    upload_id ← λ s.
        let (m, id) =
          create_session f now.upload_id (text_or_empty filename) total_size now.handled_at
            s.session_manager in
        (record s { session_manager = m }, ok id)
    pure (
        answer (field "upload_id" (text upload_id) (field "status" (text "ready") end_object)) none)

  -- The calls of `file_writer`, one after the other.
  unfoldable pub write_all : List Write → Action Disk (Unit {0})
  write_all [] = pure tt
  write_all (w ∷ ws) = do
    abs_path ← from_result (validate_path root w.filename)
    write_at py abs_path w.offset w.data_
    write_all ws

  abbrev expected_text : Option (UploadSession f) → String
  expected_text none = ""
  expected_text (some s) = decimal s.next_expected_offset

  abbrev chunk_text : String → ℕ → String → Exception → String
  chunk_text upload_id offset expected (Exceptions.value_error session_not_found) =
      "Session " <> (upload_id <> " not found")
  chunk_text upload_id offset expected (Exceptions.value_error overlapping_chunk) =
      "Overlapping chunk at " <> (decimal offset <> (" (expected " <> (expected <> ")")))
  chunk_text upload_id offset expected e =
      "Out-of-order chunk: Got " <> (decimal offset <> (", expected " <> expected))

  abbrev pub chunk_error : String → ℕ → Option (UploadSession f) → Exception → Error
  chunk_error upload_id offset session e =
      value_error
        ("Invalid metadata format: " <> chunk_text upload_id offset (expected_text session) e)

  -- A ValueError of the writer gets the prefix of the handler.
  abbrev pub writer_error : Error → Error
  writer_error (value_error t) = value_error ("Invalid metadata format: " <> t)
  writer_error e = e

  -- The end of `apply_chunk`, when the writes have been tried: one that raises ends it there.
  abbrev pub settled :
      String
      → ℕ
      → f.F
      → Py (Bool × Message)
      → UploadSessionManager f
      → Agent f
      → Disk × Result Error (Unit {0})
      → Agent f × Result Error (Bool × Message)
  settled upload_id offset now r m s (d, err e) = (
    record s { disk = d; session_manager = (get_session f upload_id now s.session_manager).0 },
    err (writer_error e),
  )
  settled upload_id offset now (ok r) m s (d, ok _) =
      (record s { disk = d; session_manager = record m { writes = [] } }, ok r)
  settled upload_id offset now (err e) m s (d, ok _) = (
    record s { disk = d; session_manager = record m { writes = [] } },
    err (chunk_error upload_id offset (lookup upload_id s.session_manager.sessions) e),
  )

  unfoldable pub apply_chunk_on : String → ℕ → Bytes → f.F → Action (Agent f) (Bool × Message)
  apply_chunk_on upload_id offset chunk now s =
      let (m, r) =
        apply_chunk f upload_id offset chunk now (record (s.session_manager) { writes = [] }) in
      settled upload_id offset now r m s (write_all m.writes s.disk)

  -- An offset that is no number is compared only when the session has been found.
  abbrev pub apply_chunk_at :
      String → Option ℕ → Bytes → f.F → Option (UploadSession f) → Action (Agent f) (Bool × Message)
  apply_chunk_at upload_id (some offset) chunk now session s =
      apply_chunk_on upload_id offset chunk now s
  apply_chunk_at upload_id none chunk now none s =
      (s, err (chunk_error upload_id 0 none (Exceptions.value_error session_not_found)))
  apply_chunk_at upload_id none chunk now (some session) s = (
    record s { session_manager = (get_session f upload_id now s.session_manager).0 },
    err (other_error "TypeError"),
  )

  -- No session has an id that is no text; a list or an object cannot be looked up.
  abbrev pub apply_chunk_to : Value → Option ℕ → Bytes → f.F → Action (Agent f) (Bool × Message)
  apply_chunk_to (text upload_id) offset chunk now s =
      apply_chunk_at upload_id offset chunk now (lookup upload_id s.session_manager.sessions) s
  apply_chunk_to (array vs) offset chunk now s = (s, err (other_error "TypeError"))
  apply_chunk_to (object vs) offset chunk now s = (s, err (other_error "TypeError"))
  apply_chunk_to v offset chunk now s =
      (s, err (chunk_error (py.repr v) 0 none (Exceptions.value_error session_not_found)))

  unfoldable pub handle_put_chunk : Surroundings f → Bytes → Action (Agent f) Answer
  handle_put_chunk now payload = do
    (meta, chunk_data) ← from_result (decode_mixed py "Invalid metadata format: " payload)
    fields ← from_result (as_object meta)
    let upload_id = get "upload_id" fields
    let chunk_len = get "chunk_len" fields
    raise_if (not (truthy upload_id) || (is_null (get "offset" fields) || is_null chunk_len))
        (value_error "Invalid metadata format: Missing 'upload_id', 'offset', or 'chunk_len'")
    raise_if (not (is_number (length chunk_data) (number_of chunk_len))) (
        value_error (
          "Invalid metadata format: Chunk length mismatch: Declared "
          <> (shown py chunk_len <> (", Actual " <> decimal (length chunk_data)))))
    (is_complete, msg) ←
        apply_chunk_to upload_id (number_of (get "offset" fields)) chunk_data now.handled_at
    pure (
        answer
          (field "upload_id" upload_id (
            field "bytes_written" chunk_len (
              field "complete" (truth is_complete)
                (field "status" (text (message_text msg)) end_object))))
          none)
