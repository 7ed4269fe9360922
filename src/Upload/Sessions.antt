-- ===== src/Upload/Sessions.antt =====
-- The table of the sessions: an upload is finished when its file is complete, and leaves the others alone.
use rudp_agent_stack.Base.{
  ℕ, ◌≡◌, refl, ap, ◌∙◌, String, Bool, true, false, not, Option, none, some, ok, err, arith, nat_eq,
  string_eq,
}
use rudp_agent_stack.Base.Dict.{
  lookup, remove, IsDistinct, filter_option, lookup-insert, lookup-remove,
}
use rudp_agent_stack.Base.Cleanup.{lookup-remove_keys-keys_if}
use rudp_agent_stack.Exceptions.{Py}
use rudp_agent_stack.Bytes.{Bytes}
use rudp_agent_stack.Rudp.Float.{Float}
use rudp_agent_stack.Upload.{
  Message, duplicate_ignored, upload_complete, chunk_applied, UploadSession, Progress,
  UploadSessionManager, is_expired, touch, found_session, get_session, settle, apply_found,
  apply_to, apply_chunk, cleanup_expired_sessions,
}
use rudp_agent_stack.Upload.Writes.{content, IsSlice}
use rudp_agent_stack.Upload.Content.{IsFaithful, apply_to_complete}

module _ (f : Float) where
  open f use {F}

  settle_complete :
      (id : String) (q : Progress f × Py (Bool × Message)) (m : UploadSessionManager f)
      → (settle f id q m).1 ≡ ok (true, upload_complete)
      → (q.1 ≡ ok (true, upload_complete))
        × ((settle f id q m).0.writes ≡ q.0.writes)
        × ((settle f id q m).0.sessions ≡ remove id m.sessions)
  settle_complete id (p, err e) m h = absurd (ground arith)
  settle_complete id (p, ok (done, upload_complete)) m h = (h, refl, refl)
  settle_complete id (p, ok (done, duplicate_ignored)) m h = absurd (ground arith)
  settle_complete id (p, ok (done, chunk_applied)) m h = absurd (ground arith)

  found_complete :
      (file : Bytes) (id : String) (offset : ℕ) (chunk : Bytes) (now : F) (s : UploadSession f)
      (m : UploadSessionManager f)
      → IsFaithful f file (record { session = s; writes = m.writes })
      → IsSlice file offset chunk
      → (let (m', o) = found_session f id now (some s) m in (apply_found f id offset chunk o m').1)
        ≡ ok (true, upload_complete)
      → let (m', o) = found_session f id now (some s) m in
        let r = (apply_found f id offset chunk o m').0 in
        (content r.writes ≡ file) × (lookup id r.sessions ≡ none)
  found_complete file id offset chunk now s m h slice done =
      let p : Progress f = record { session = touch f now s; writes = m.writes } in
      let q = apply_to f m.upload_mode offset chunk p in
      let m' = (found_session f id now (some s) m).0 in
      let k = settle_complete id q m' done in
      (
        ap content k.1
            ∙ apply_to_complete f file m.upload_mode offset chunk p slice
                (record {
                  within = h.within;
                  written = h.written;
                  waiting = h.waiting;
                  sized = h.sized;
                })
                k.0,
        ap (lookup id) k.2
            ∙ ground (arith, lookup-remove id id m'.sessions, string_eq.beq_iff id id),
      )

  -- A session has written a file up to `next_expected_offset`, holds slices of the file, and gets a
  -- slice. When the answer is that the upload is complete, the calls of the writer make up the whole
  -- file, and the session is gone from the table.
  pub apply_chunk_complete :
      (file : Bytes) (id : String) (offset : ℕ) (chunk : Bytes) (now : F) (s : UploadSession f)
      (m : UploadSessionManager f)
      → lookup id m.sessions ≡ some s
      → IsFaithful f file (record { session = s; writes = m.writes })
      → IsSlice file offset chunk
      → (apply_chunk f id offset chunk now m).1 ≡ ok (true, upload_complete)
      → let r = (apply_chunk f id offset chunk now m).0 in
        (content r.writes ≡ file) × (lookup id r.sessions ≡ none)
  unfolding apply_chunk get_session
  apply_chunk_complete file id offset chunk now s m found h slice done =
      rw found (found_complete file id offset chunk now s m h slice (rw found at done))

  settle_other :
      (id other : String) (q : Progress f × Py (Bool × Message)) (m : UploadSessionManager f)
      → string_eq.beq id other ≡ false
      → lookup other (settle f id q m).0.sessions ≡ lookup other m.sessions
  settle_other id other (p, err e) m h = lookup-insert id other p.session m.sessions ∙ rw h refl
  settle_other id other (p, ok (done, upload_complete)) m h =
      lookup-remove id other m.sessions ∙ rw h refl
  settle_other id other (p, ok (done, duplicate_ignored)) m h =
      lookup-insert id other p.session m.sessions ∙ rw h refl
  settle_other id other (p, ok (done, chunk_applied)) m h =
      lookup-insert id other p.session m.sessions ∙ rw h refl

  found_other :
      (id other : String) (offset : ℕ) (chunk : Bytes) (now : F) (o : Option (UploadSession f))
      (m : UploadSessionManager f)
      → string_eq.beq id other ≡ false
      → let (m', o') = found_session f id now o m in
        lookup other (apply_found f id offset chunk o' m').0.sessions ≡ lookup other m.sessions
  found_other id other offset chunk now none m h = refl
  found_other id other offset chunk now (some s) m h =
      settle_other id other
        (apply_to f m.upload_mode offset chunk
          (record { session = touch f now s; writes = m.writes }))
        (found_session f id now (some s) m).0 h
      ∙ lookup-insert id other (touch f now s) m.sessions
      ∙ rw h refl

  -- A chunk of one upload changes no other session, whether it is accepted, refused or the last one.
  pub apply_chunk_other :
      (id other : String) (offset : ℕ) (chunk : Bytes) (now : F) (m : UploadSessionManager f)
      → string_eq.beq id other ≡ false
      → lookup other (apply_chunk f id offset chunk now m).0.sessions ≡ lookup other m.sessions
  unfolding apply_chunk get_session
  apply_chunk_other id other offset chunk now m h =
      found_other id other offset chunk now (lookup id m.sessions) m h

  -- The cleanup ends exactly the sessions that were idle for longer than their time to live.
  pub lookup-cleanup_expired_sessions :
      (id : String) (now : F) (m : UploadSessionManager f)
      → IsDistinct m.sessions
      → lookup id (cleanup_expired_sessions f now m).sessions
        ≡ filter_option (λ s. not (is_expired f m.session_ttl now s)) (lookup id m.sessions)
  unfolding cleanup_expired_sessions
  lookup-cleanup_expired_sessions id now m h =
      lookup-remove_keys-keys_if (is_expired f m.session_ttl now) id m.sessions h
