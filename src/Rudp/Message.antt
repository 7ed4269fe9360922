-- ===== src/Rudp/Message.antt =====
-- What a stream of segments means: the specification that sender and receiver meet. A segment
-- carries some bytes, and its FIN flag ends a message.
use rudp_agent_stack.Base.{◌≡◌, refl, Bool, List, [], ◌∷◌, ◌++◌, if◌then◌else◌}
use rudp_agent_stack.Bytes.{Bytes}
use rudp_agent_stack.Rudp.Packet.{RudpPacket, is_fin}

pub record Piece : Type 0 where
  pub fin : Bool
  pub bytes : Bytes

unfoldable pub piece_of : RudpPacket → Piece
piece_of p = record { fin = is_fin p; bytes = p.payload }

-- The complete messages, and the bytes of the one that is not complete.
pub record Assembly : Type 0 where
  pub pending : Bytes
  pub messages : List Bytes

abbrev pub extend : Assembly → Piece → Assembly
extend a p = record {
  pending = if p.fin then [] else a.pending ++ p.bytes;
  messages = if p.fin then a.messages ++ (a.pending ++ p.bytes) ∷ [] else a.messages;
}

unfoldable pub assemble_from : Assembly → List Piece → Assembly
assemble_from a [] = a
assemble_from a (p ∷ ps) = assemble_from (extend a p) ps

abbrev pub nothing : Assembly
nothing = record { pending = []; messages = [] }

unfoldable pub assemble : List Piece → Assembly
unfolding assemble_from
assemble = assemble_from nothing

pub assemble_from-append :
    (a : Assembly) (xs ys : List Piece)
    → assemble_from a (xs ++ ys) ≡ assemble_from (assemble_from a xs) ys
unfolding assemble_from
assemble_from-append a [] ys = refl
assemble_from-append a (x ∷ xs) ys = assemble_from-append (extend a x) xs ys

pub assemble-append : (xs ys : List Piece) → assemble (xs ++ ys) ≡ assemble_from (assemble xs) ys
unfolding assemble
assemble-append xs ys = assemble_from-append nothing xs ys

pub assemble-append_one :
    (xs : List Piece) (p : Piece) → assemble (xs ++ p ∷ []) ≡ extend (assemble xs) p
unfolding assemble
assemble-append_one xs p = assemble_from-append nothing xs (p ∷ [])
