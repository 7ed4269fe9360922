-- ===== src/Envelope/Tests.antt =====
-- A message and a mixed payload on the wire.
use rudp_agent_stack.Base.{List, ◌≡◌, refl, some, [], ◌∷◌, ok, arith, take}
use rudp_agent_stack.Constants.{header_size}
use rudp_agent_stack.Bytes.{Bytes}
use rudp_agent_stack.Envelope.{encode_message}
use rudp_agent_stack.Envelope.MixedMode.{Json, ReadsBack, encode, decode}
use rudp_agent_stack.Envelope.Stream.{receive_message}
use rudp_agent_stack.Envelope.Reading.{concat}
use rudp_agent_stack.Envelope.Framing.{receive_message-encode_message}
use rudp_agent_stack.Envelope.RoundTrip.{decode-encode}

-- Metadata that is its own text.
abbrev plain : Json
plain = record { Metadata = Bytes; dumps = λ m. m; loads = some }

plain-ReadsBack : ReadsBack plain
plain-ReadsBack = record { loads-dumps = λ m. refl }

decode-encode_example :
    (bs : Bytes) × (encode plain (123 ∷ 125 ∷ []) (9 ∷ []) ≡ ok bs)
    × (decode plain bs ≡ ok (123 ∷ 125 ∷ [], 9 ∷ []))
decode-encode_example = decode-encode plain plain-ReadsBack (123 ∷ 125 ∷ []) (9 ∷ []) (omega arith)

-- The message and the start of the next one, in chunks that cut the header and the payload.
abbrev message_bytes : Bytes
message_bytes = 1 ∷ 3 ∷ 0 ∷ 0 ∷ 0 ∷ 0 ∷ 0 ∷ 5 ∷ 0 ∷ 0 ∷ 0 ∷ 2 ∷ 7 ∷ 8 ∷ []

abbrev cut : List Bytes
cut = (1 ∷ 3 ∷ 0 ∷ 0 ∷ 0 ∷ []) ∷ (0 ∷ 0 ∷ 5 ∷ 0 ∷ 0 ∷ 0 ∷ 2 ∷ 7 ∷ []) ∷ (8 ∷ 1 ∷ []) ∷ []

message_encoded : encode_message 3 0 9 (7 ∷ 8 ∷ []) (some 5) ≡ ok message_bytes
unfolding encode_message
message_encoded = refl

receive_message-encode_message_example :
    ((receive_message cut).0 ≡ ok (take header_size message_bytes, 7 ∷ 8 ∷ []))
    × (concat (receive_message cut).1 ≡ 1 ∷ [])
receive_message-encode_message_example =
    receive_message-encode_message 3 0 9 (7 ∷ 8 ∷ []) (some 5) message_bytes (1 ∷ []) cut
      (omega arith) (omega arith) (omega arith) (omega arith) message_encoded
      (omega arith, (omega arith, (omega arith, tt))) refl
