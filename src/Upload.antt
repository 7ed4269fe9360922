-- ===== src/Upload.antt =====
-- server/agent/upload_session.py: uploads of a file in chunks. The calls of the file writer are kept as
-- a list, the first one first; a writer that raises is not modelled, and a new upload id, which `uuid4`
-- makes up, is an argument.
pub mod Writes
pub mod Content
pub mod Sessions
mod Tests
use rudp_agent_stack.Base.{
  ℕ, zero, suc, ◌+◌, String, Bool, true, false, Option, none, some, List, [], ◌∷◌, ◌++◌, ok, err,
  ltb, leb, ◌==◌, if◌then◌else◌, length, nat_eq, string_eq,
}
use rudp_agent_stack.Base.Cleanup.{keys_if, remove_keys}
use rudp_agent_stack.Base.Dict.{Dict, lookup, insert, remove}
use rudp_agent_stack.Exceptions.{
  Py, value_error, session_not_found, overlapping_chunk, out_of_order_chunk,
}
use rudp_agent_stack.Bytes.{Bytes}
use rudp_agent_stack.Rudp.Float.{Float}

pub data UploadMode : Type 0 where
  strict bufferable : UploadMode

-- The message beside the answer of `apply_chunk`.
pub data Message : Type 0 where
  duplicate_ignored upload_complete chunk_applied : Message

-- One call of `file_writer_func`.
pub record Write : Type 0 where
  pub filename : String
  pub offset : ℕ
  pub data_ : Bytes

module _ (f : Float) where
  open f use {F, sub, lt}

  pub record UploadSession : Type 0 where
    pub upload_id : String
    pub filename : String
    pub total_size : ℕ
    pub created_at : F
    pub last_activity : F
    pub next_expected_offset : ℕ
    pub buffered_chunks : Dict ℕ Bytes

  -- A session, and the calls of the writer so far.
  pub record Progress : Type 0 where
    pub session : UploadSession
    pub writes : List Write

  abbrev pub is_expired : F → F → UploadSession → Bool
  is_expired ttl now s = lt ttl (sub now s.last_activity)

  pub write_chunk : ℕ → Bytes → Progress → Progress
  write_chunk offset chunk p = record {
    session = record (p.session) {
      next_expected_offset = p.session.next_expected_offset + length chunk;
    };
    writes =
        p.writes ++ record { filename = p.session.filename; offset = offset; data_ = chunk } ∷ [];
  }

  abbrev pub take_buffered : ℕ → Progress → Progress
  take_buffered offset p = record p {
    session = record (p.session) { buffered_chunks = remove offset p.session.buffered_chunks };
  }

  -- The loop of `_process_buffer`; each round takes one chunk out of the buffer.
  pub process_buffer : ℕ → Progress → Progress
  unfolding write_chunk
  process_buffer zero p = p
  process_buffer (suc fuel) p =
      elim (lookup p.session.next_expected_offset p.session.buffered_chunks) [
        | none ↦ p
        | some chunk ↦
            let offset = p.session.next_expected_offset in
            process_buffer fuel (write_chunk offset chunk (take_buffered offset p))
      ]

  abbrev pub drain_buffer : UploadMode → Progress → Progress
  drain_buffer strict p = p
  drain_buffer bufferable p = process_buffer (length p.session.buffered_chunks) p

  abbrev pub finish : Progress → Progress × Py (Bool × Message)
  finish p = (
    p,
    ok (
        if p.session.next_expected_offset == p.session.total_size
        then (true, upload_complete)
        else (false, chunk_applied)),
  )

  abbrev pub buffer_chunk : UploadMode → ℕ → Bytes → Progress → Progress × Py (Bool × Message)
  buffer_chunk strict offset chunk p = (p, err (value_error out_of_order_chunk))
  buffer_chunk bufferable offset chunk p = finish (record p {
    session = record (p.session) {
      buffered_chunks = insert offset chunk p.session.buffered_chunks;
    };
  })

  -- The steps 1 to 4 of `apply_chunk` on the session.
  pub apply_to : UploadMode → ℕ → Bytes → Progress → Progress × Py (Bool × Message)
  unfolding process_buffer write_chunk
  apply_to mode offset chunk p =
      let expected = p.session.next_expected_offset in
      if ltb offset expected
      then if leb (offset + length chunk) expected
        then (p, ok (expected == p.session.total_size, duplicate_ignored))
        else (p, err (value_error overlapping_chunk))
      else if offset == expected
      then finish (drain_buffer mode (write_chunk offset chunk p))
      else buffer_chunk mode offset chunk p

  pub record UploadSessionManager : Type 0 where
    pub sessions : Dict String UploadSession
    pub upload_mode : UploadMode
    pub session_ttl : F
    pub writes : List Write

  abbrev pub new_session : String → String → ℕ → F → UploadSession
  new_session upload_id filename total_size now = record {
    upload_id = upload_id;
    filename = filename;
    total_size = total_size;
    created_at = now;
    last_activity = now;
    next_expected_offset = 0;
    buffered_chunks = [];
  }

  unfoldable pub create_session :
      String → String → ℕ → F → UploadSessionManager → UploadSessionManager × String
  create_session upload_id filename total_size now m = (
    record m {
      sessions = insert upload_id (new_session upload_id filename total_size now) m.sessions;
    },
    upload_id,
  )

  abbrev pub touch : F → UploadSession → UploadSession
  touch now s = record s { last_activity = now }

  abbrev found_session :
      String
      → F
      → Option UploadSession
      → UploadSessionManager
      → UploadSessionManager × Option UploadSession
  found_session upload_id now none m = (m, none)
  found_session upload_id now (some s) m =
      (record m { sessions = insert upload_id (touch now s) m.sessions }, some (touch now s))

  unfoldable pub get_session :
      String → F → UploadSessionManager → UploadSessionManager × Option UploadSession
  get_session upload_id now m = found_session upload_id now (lookup upload_id m.sessions) m

  -- A complete upload leaves the table; else the table has the session as it is now.
  abbrev pub settle :
      String
      → Progress × Py (Bool × Message)
      → UploadSessionManager
      → UploadSessionManager × Py (Bool × Message)
  settle upload_id (p, ok (done, upload_complete)) m = (
    record m { sessions = remove upload_id m.sessions; writes = p.writes },
    ok (done, upload_complete),
  )
  settle upload_id (p, r) m =
      (record m { sessions = insert upload_id p.session m.sessions; writes = p.writes }, r)

  abbrev pub apply_found :
      String
      → ℕ
      → Bytes
      → Option UploadSession
      → UploadSessionManager
      → UploadSessionManager × Py (Bool × Message)
  apply_found upload_id offset chunk none m = (m, err (value_error session_not_found))
  apply_found upload_id offset chunk (some s) m =
      settle upload_id
        (apply_to m.upload_mode offset chunk (record { session = s; writes = m.writes })) m

  unfoldable pub apply_chunk :
      String → ℕ → Bytes → F → UploadSessionManager → UploadSessionManager × Py (Bool × Message)
  unfolding apply_to get_session
  apply_chunk upload_id offset chunk now m =
      let (m', session) = get_session upload_id now m in
      apply_found upload_id offset chunk session m'

  unfoldable pub cleanup_expired_sessions : F → UploadSessionManager → UploadSessionManager
  cleanup_expired_sessions now m = record m {
    sessions = remove_keys (keys_if (is_expired m.session_ttl now) m.sessions) m.sessions;
  }
