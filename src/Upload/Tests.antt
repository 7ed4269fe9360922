-- ===== src/Upload/Tests.antt =====
-- An upload of four bytes whose chunks come in the wrong order, and the theorems on it.
use rudp_agent_stack.Base.{
  ℕ, ◌≤◌, ◌≡◌, refl, true, none, some, List, [], ◌∷◌, ok, arith, length, take, string_eq, nat_eq,
}
use rudp_agent_stack.Base.Dict.{lookup, insert, remove, IsDistinct}
use rudp_agent_stack.Bytes.{Bytes}
use rudp_agent_stack.Samples.{milli}
use rudp_agent_stack.Upload.{
  UploadSession, UploadSessionManager, bufferable, upload_complete, new_session, create_session,
  apply_chunk, cleanup_expired_sessions,
}
use rudp_agent_stack.Upload.Writes.{content}
use rudp_agent_stack.Upload.Content.{IsFaithful, Slices, apply_all, apply_all-content}
use rudp_agent_stack.Upload.Sessions.{apply_chunk_complete}

abbrev file : Bytes
file = 1 ∷ 2 ∷ 3 ∷ 4 ∷ []

abbrev chunks : List (ℕ × Bytes)
chunks = (2, 3 ∷ 4 ∷ []) ∷ (0, 1 ∷ 2 ∷ []) ∷ []

chunks-Slices : Slices milli file chunks
chunks-Slices = (
  record { inside = omega arith; same = refl },
  (record { inside = omega arith; same = refl }, tt),
)

apply_all-content_example :
    let p =
      apply_all milli file bufferable chunks
        (record { session = new_session milli "u" "f" (length file) 0; writes = [] }) in
    (p.session.next_expected_offset ≤ length file)
    × (content p.writes ≡ take p.session.next_expected_offset file)
apply_all-content_example = apply_all-content milli file bufferable chunks "u" "f" 0 chunks-Slices

program : Unit {0}
unfolding apply_chunk create_session cleanup_expired_sessions lookup insert remove
program = tt

abbrev empty : UploadSessionManager milli
empty = record { sessions = []; upload_mode = bufferable; session_ttl = 300000; writes = [] }

abbrev two : UploadSessionManager milli
two = (create_session milli "v" "g" 9 0 (create_session milli "u" "f" 4 0 empty).0).0

abbrev waiting : UploadSessionManager milli
waiting = (apply_chunk milli "u" 2 (3 ∷ 4 ∷ []) 5 two).0

abbrev session : UploadSession milli
session = record (new_session milli "u" "f" 4 0) {
  last_activity = 5;
  buffered_chunks = (2, 3 ∷ 4 ∷ []) ∷ [];
}

session_found : lookup "u" waiting.sessions ≡ some session
unfolding program
session_found = refl

session-IsFaithful : IsFaithful milli file (record { session = session; writes = waiting.writes })
unfolding program
session-IsFaithful = record {
  within = omega arith;
  written = refl;
  waiting = (chunks-Slices.0, tt);
  sized = refl;
}

completed : (apply_chunk milli "u" 0 (1 ∷ 2 ∷ []) 6 waiting).1 ≡ ok (true, upload_complete)
unfolding program
completed = refl

apply_chunk_complete_example :
    let r = (apply_chunk milli "u" 0 (1 ∷ 2 ∷ []) 6 waiting).0 in
    (content r.writes ≡ file) × (lookup "u" r.sessions ≡ none)
apply_chunk_complete_example =
    apply_chunk_complete milli file "u" 0 (1 ∷ 2 ∷ []) 6 session waiting session_found
      session-IsFaithful chunks-Slices.1.0 completed

two-IsDistinct : IsDistinct two.sessions
unfolding program
two-IsDistinct = (refl, (refl, tt))
