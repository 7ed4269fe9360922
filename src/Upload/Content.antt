-- ===== src/Upload/Content.antt =====
-- The file that an upload writes is the one that its chunks were cut from.
use rudp_agent_stack.Base.{
  ℕ, zero, suc, ◌+◌, ◌≤◌, ◌≡◌, refl, sym, ap, ◌∙◌, subst, String, true, List, [], ◌∷◌, ok, arith,
  ltb, leb, ◌==◌, length, take, nat_eq, inl, inr, Bool-cases, Option-cases, All, take_all,
}
use rudp_agent_stack.Base.Dict.{lookup, Entries, Entries-lookup, Entries-insert, Entries-remove}
use rudp_agent_stack.Bytes.{Bytes}
use rudp_agent_stack.Rudp.Float.{Float}
use rudp_agent_stack.Upload.{
  UploadMode, strict, bufferable, Write, Progress, write_chunk, take_buffered, process_buffer,
  drain_buffer, finish, buffer_chunk, apply_to, new_session, upload_complete,
}
use rudp_agent_stack.Upload.Writes.{store, content, content_from-append, IsSlice, store_next}

module _ (f : Float) (file : Bytes) where
  open f use {F}

  -- The file has been written up to `next_expected_offset`, and the chunks that wait belong to it.
  pub record IsFaithful (p : Progress f) : Type 0 where
    pub within : p.session.next_expected_offset ≤ length file
    pub written : content p.writes ≡ take p.session.next_expected_offset file
    pub waiting : Entries (IsSlice file) p.session.buffered_chunks
    pub sized : p.session.total_size ≡ length file

  write_chunk-IsFaithful :
      (chunk : Bytes) (p : Progress f)
      → IsSlice file p.session.next_expected_offset chunk
      → IsFaithful p
      → IsFaithful (write_chunk f p.session.next_expected_offset chunk p)
  unfolding write_chunk
  write_chunk-IsFaithful chunk p slice h =
      let n = p.session.next_expected_offset in
      let w : Write = record { filename = p.session.filename; offset = n; data_ = chunk } in
      record {
        within = slice.inside;
        written =
            content_from-append [] p.writes w
            ∙ ap (λ old. store old w) h.written
            ∙ store_next file n p.session.filename chunk slice;
        waiting = h.waiting;
        sized = h.sized;
      }

  process_buffer-IsFaithful :
      (fuel : ℕ) (p : Progress f) → IsFaithful p → IsFaithful (process_buffer f fuel p)
  unfolding process_buffer
  process_buffer-IsFaithful zero p h = h
  process_buffer-IsFaithful (suc fuel) p h =
      elim (Option-cases (lookup p.session.next_expected_offset p.session.buffered_chunks)) [
        | inl absent ↦ rw (absent, process_buffer) h
        | inr (chunk, present) ↦
            let n = p.session.next_expected_offset in
            rw (present, process_buffer)
              (process_buffer-IsFaithful fuel _ (
                write_chunk-IsFaithful chunk (take_buffered f n p)
                  (Entries-lookup (IsSlice file) n chunk p.session.buffered_chunks h.waiting
                    present)
                  (record {
                    within = h.within;
                    written = h.written;
                    waiting = Entries-remove (IsSlice file) n p.session.buffered_chunks h.waiting;
                    sized = h.sized;
                  })))
      ]

  drain_buffer-IsFaithful :
      (mode : UploadMode) (p : Progress f) → IsFaithful p → IsFaithful (drain_buffer f mode p)
  drain_buffer-IsFaithful strict p h = h
  drain_buffer-IsFaithful bufferable p h =
      process_buffer-IsFaithful (length p.session.buffered_chunks) p h

  buffer_chunk-IsFaithful :
      (mode : UploadMode) (offset : ℕ) (chunk : Bytes) (p : Progress f)
      → IsSlice file offset chunk
      → IsFaithful p
      → IsFaithful (buffer_chunk f mode offset chunk p).0
  buffer_chunk-IsFaithful strict offset chunk p slice h = h
  buffer_chunk-IsFaithful bufferable offset chunk p slice h = record {
    within = h.within;
    written = h.written;
    waiting = Entries-insert (IsSlice file) offset chunk p.session.buffered_chunks slice h.waiting;
    sized = h.sized;
  }

  pub apply_to-IsFaithful :
      (mode : UploadMode) (offset : ℕ) (chunk : Bytes) (p : Progress f)
      → IsSlice file offset chunk
      → IsFaithful p
      → IsFaithful (apply_to f mode offset chunk p).0
  unfolding apply_to
  apply_to-IsFaithful mode offset chunk p slice h =
      let n = p.session.next_expected_offset in
      elim (Bool-cases (ltb offset n)) [
        | inl old ↦ rw old (elim (Bool-cases (leb (offset + length chunk) n)) [
          | inl all ↦ rw all h
          | inr part ↦ rw part h
        ])
        | inr new ↦ rw new (elim (Bool-cases (offset == n)) [
          | inl next ↦
              let e : offset ≡ n = ground arith in
              rw next (
                subst (λ o. IsFaithful (drain_buffer f mode (write_chunk f o chunk p))) (sym e)
                  (drain_buffer-IsFaithful mode _
                    (write_chunk-IsFaithful chunk p (subst (λ o. IsSlice file o chunk) e slice) h)))
          | inr later ↦ rw later (buffer_chunk-IsFaithful mode offset chunk p slice h)
        ])
      ]

  content-finish :
      (p : Progress f)
      → (finish f p).1 ≡ ok (true, upload_complete)
      → IsFaithful p
      → content p.writes ≡ file
  content-finish p done h =
      let all : p.session.next_expected_offset ≡ p.session.total_size = ground arith in
      h.written ∙ take_all file p.session.next_expected_offset (omega (arith, h.sized))

  content-buffer_chunk :
      (mode : UploadMode) (offset : ℕ) (chunk : Bytes) (p : Progress f)
      → IsSlice file offset chunk
      → IsFaithful p
      → (buffer_chunk f mode offset chunk p).1 ≡ ok (true, upload_complete)
      → content (buffer_chunk f mode offset chunk p).0.writes ≡ file
  content-buffer_chunk strict offset chunk p slice h done = absurd (ground arith)
  content-buffer_chunk bufferable offset chunk p slice h done =
      content-finish _ done (buffer_chunk-IsFaithful bufferable offset chunk p slice h)

  pub apply_to_complete :
      (mode : UploadMode) (offset : ℕ) (chunk : Bytes) (p : Progress f)
      → IsSlice file offset chunk
      → IsFaithful p
      → (apply_to f mode offset chunk p).1 ≡ ok (true, upload_complete)
      → content (apply_to f mode offset chunk p).0.writes ≡ file
  unfolding apply_to
  apply_to_complete mode offset chunk p slice h done =
      let n = p.session.next_expected_offset in
      elim (Bool-cases (ltb offset n)) [
        | inl old ↦ elim (Bool-cases (leb (offset + length chunk) n)) [
          | inl all ↦ absurd (ground (arith, rw (old, all) at done))
          | inr part ↦ absurd (ground (arith, rw (old, part) at done))
        ]
        | inr new ↦ elim (Bool-cases (offset == n)) [
          | inl next ↦
              let e : offset ≡ n = ground arith in
              rw (new, next)
                (content-finish _ (rw (new, next) at done) (
                  subst (λ o. IsFaithful (drain_buffer f mode (write_chunk f o chunk p))) (sym e)
                    (drain_buffer-IsFaithful mode _ (
                      write_chunk-IsFaithful chunk p (subst (λ o. IsSlice file o chunk) e slice)
                        h))))
          | inr later ↦
              rw (new, later)
                (content-buffer_chunk mode offset chunk p slice h (rw (new, later) at done))
        ]
      ]

  -- The chunks of an upload, one after the other.
  pub apply_all : UploadMode → List (ℕ × Bytes) → Progress f → Progress f
  apply_all mode [] p = p
  apply_all mode ((offset, chunk) ∷ rest) p = apply_all mode rest (apply_to f mode offset chunk p).0

  abbrev pub Slices : List (ℕ × Bytes) → Type 0
  Slices = All (λ c. IsSlice file c.0 c.1)

  apply_all-IsFaithful :
      (mode : UploadMode) (chunks : List (ℕ × Bytes)) (p : Progress f)
      → Slices chunks
      → IsFaithful p
      → IsFaithful (apply_all mode chunks p)
  unfolding apply_all
  apply_all-IsFaithful mode [] p slices h = h
  apply_all-IsFaithful mode ((offset, chunk) ∷ rest) p slices h =
      apply_all-IsFaithful mode rest _ slices.1 (apply_to-IsFaithful mode offset chunk p slices.0 h)

  -- A new session of the size of a file gets slices of the file, in any order, some of them repeated,
  -- overlapping or refused. Then the calls of the writer make up the file up to `next_expected_offset`,
  -- in both modes.
  pub apply_all-content :
      (mode : UploadMode) (chunks : List (ℕ × Bytes)) (upload_id name : String) (now : F)
      → Slices chunks
      → let p =
          apply_all mode chunks
            (record { session = new_session f upload_id name (length file) now; writes = [] }) in
        (p.session.next_expected_offset ≤ length file)
        × (content p.writes ≡ take p.session.next_expected_offset file)
  apply_all-content mode chunks upload_id name now slices =
      let h =
        apply_all-IsFaithful mode chunks _ slices
          (record { within = omega arith; written = refl; waiting = tt; sized = refl }) in
      (h.within, h.written)
