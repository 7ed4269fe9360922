-- ===== src/Rudp/Sender/Chunks.antt =====
-- Fragmentation and reassembly are inverse: the segments of a message assemble to that message.
use rudp_agent_stack.Base.{
  ℕ, zero, suc, ◌+◌, ◌-◌, ◌*◌, ◌/◌, ◌≤◌, ◌≡◌, refl, sym, ap, ◌∙◌, true, false, List, [], ◌∷◌, ◌++◌,
  arith, length, take, drop, max, append_assoc, take_add, drop-drop, take_all, All, length-take,
}
use rudp_agent_stack.Constants.{mss}
use rudp_agent_stack.Bytes.{Bytes}
use rudp_agent_stack.Rudp.Message.{Piece, assemble_from}
use rudp_agent_stack.Rudp.Sender.{chunks, chunks_from}

-- The last chunk ends the message.
abbrev pub pieces_of_chunks : List Bytes → List Piece
pieces_of_chunks [] = []
pieces_of_chunks (c ∷ []) = record { fin = true; bytes = c } ∷ []
pieces_of_chunks (c ∷ d ∷ rest) = record { fin = false; bytes = c } ∷ pieces_of_chunks (d ∷ rest)

-- The pieces of a message.
unfoldable pub fragments : Bytes → List Piece
fragments bytes = pieces_of_chunks (chunks bytes)

from_pending :
    (n i : ℕ) (bytes pending : Bytes) (messages : List Bytes)
    → assemble_from
        (record { pending = pending; messages = messages })
        (pieces_of_chunks (chunks_from (suc n) i bytes))
      ≡ record {
        pending = [];
        messages = messages ++ (pending ++ take (suc n * mss) (drop i bytes)) ∷ [];
      }
unfolding assemble_from chunks_from
from_pending zero i bytes pending messages = refl
from_pending (suc n) i bytes pending messages =
    from_pending n (i + mss) bytes (pending ++ take mss (drop i bytes)) messages
    ∙ ap (λ (b : Bytes). record { pending = []; messages = messages ++ b ∷ [] })
        (append_assoc pending (take mss (drop i bytes)) (take (suc n * mss) (drop (i + mss) bytes))
          ∙ ap (λ (b : Bytes). pending ++ b) (joined))
  where
    joined :
        take mss (drop i bytes) ++ take (suc n * mss) (drop (i + mss) bytes)
        ≡ take (suc (suc n) * mss) (drop i bytes)
    joined = rw (← drop-drop bytes i mss) (
        sym (take_add (drop i bytes) mss (suc n * mss))
        ∙ ap (λ k. take k (drop i bytes)) (omega arith))

rounds :
    (bytes : Bytes)
    → (n : ℕ) × (((max (length bytes) 1 + (mss - 1)) / mss) ≡ suc n) × (length bytes ≤ suc n * mss)
rounds bytes = ((max (length bytes) 1 + (mss - 1)) / mss - 1, omega arith, omega arith)

-- The segments of a message assemble to exactly that message, behind what was complete before.
pub assemble_from-fragments :
    (bytes : Bytes) (messages : List Bytes)
    → assemble_from (record { pending = []; messages = messages }) (fragments bytes)
      ≡ record { pending = []; messages = messages ++ bytes ∷ [] }
unfolding fragments chunks
assemble_from-fragments bytes messages =
    let (n, count, enough) = rounds bytes in
    rw count (
      from_pending n 0 bytes [] messages
      ∙ ap (λ (b : Bytes). record { pending = []; messages = messages ++ b ∷ [] })
          (take_all bytes (suc n * mss) enough))

chunks_from-le : (n i : ℕ) (bytes : Bytes) → All (λ c. length c ≤ mss) (chunks_from n i bytes)
unfolding chunks_from
chunks_from-le zero i bytes = tt
chunks_from-le (suc n) i bytes =
    (omega (arith, length-take mss (drop i bytes)), chunks_from-le n (i + mss) bytes)

-- No chunk is longer than a segment may be.
pub chunks-le : (bytes : Bytes) → All (λ c. length c ≤ mss) (chunks bytes)
unfolding chunks
chunks-le bytes = chunks_from-le _ 0 bytes
