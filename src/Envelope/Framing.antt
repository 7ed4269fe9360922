-- ===== src/Envelope/Framing.antt =====
-- The reader finds the messages in the stream, however the stream is cut into chunks.
use rudp_agent_stack.Base.{
  ℕ, ◌≤◌, ◌<◌, ◌^◌, ◌≡◌, refl, sym, ap, ◌∙◌, subst, Option, List, ◌++◌, ok, arith, length, take,
  drop, length-append, take_prefix, take-append-drop, append_assoc,
}
use rudp_agent_stack.Constants.{header_size, max_payload_len, protocol_version}
use rudp_agent_stack.Exceptions.{Py}
use rudp_agent_stack.Bytes.{Bytes}
use rudp_agent_stack.Envelope.{AppHeader, decode_header, encode_message, final_req_id}
use rudp_agent_stack.Envelope.RoundTrip.{decode_header-encode_message, drop_prefix}
use rudp_agent_stack.Envelope.Stream.{
  read_header, read_payload, with_header, receive_exact, receive_message,
}
use rudp_agent_stack.Envelope.Reading.{concat, NonEmpty, Reads, receive_exact-Reads}

take_front : (xs ys : Bytes) (n : ℕ) → length xs ≡ n → take n (xs ++ ys) ≡ xs
take_front xs ys n e = subst (λ m. take m (xs ++ ys) ≡ xs) e (take_prefix xs ys)

drop_front : (xs ys : Bytes) (n : ℕ) → length xs ≡ n → drop n (xs ++ ys) ≡ ys
drop_front xs ys n e = subst (λ m. drop m (xs ++ ys) ≡ ys) e (drop_prefix xs ys)

-- A front of the stream of a known length is read off.
read_front :
    (xs ys : Bytes) (n : ℕ) (arrived : List Bytes)
    → NonEmpty arrived
    → concat arrived ≡ xs ++ ys
    → length xs ≡ n
    → Reads xs ys (receive_exact n arrived)
read_front xs ys n arrived full e size =
    let h =
      receive_exact-Reads n arrived full
        (omega (arith, ap (λ (l : Bytes). length l) e, length-append xs ys)) in
    record {
      got = h.got ∙ ap ok (ap (take n) e ∙ take_front xs ys n size);
      left = h.left ∙ ap (drop n) e ∙ drop_front xs ys n size;
      tidy = h.tidy;
    }

decoded_size : (bs : Bytes) (h : AppHeader) → decode_header bs ≡ ok h → length bs ≡ header_size
unfolding decode_header
decoded_size bs h e = ground arith

message_read :
    (header payload rest : Bytes) (h : AppHeader) (arrived : List Bytes)
    → NonEmpty arrived
    → concat arrived ≡ header ++ (payload ++ rest)
    → decode_header header ≡ ok h
    → length payload ≡ h.payload_len
    → ((receive_message arrived).0 ≡ ok (header, payload))
      × (concat (receive_message arrived).1 ≡ rest)
unfolding receive_message
message_read header payload rest h arrived full e decoded size =
    let first = receive_exact header_size arrived in
    let r1 =
      read_front header (payload ++ rest) header_size arrived full e
        (decoded_size header h decoded) in
    let second = receive_exact h.payload_len first.1 in
    let r2 = read_front payload rest h.payload_len first.1 r1.tidy r1.left size in
    let whole : read_header first ≡ (ok (header, payload), second.1) =
      ap (λ r. read_header (r, first.1)) r1.got
      ∙ ap (λ d. read_payload header d first.1) decoded
      ∙ ap (λ r. with_header header (r, second.1)) r2.got in
    (
      ap (λ (q : Py (Bytes × Bytes) × List Bytes). q.0) whole,
      ap (λ (q : Py (Bytes × Bytes) × List Bytes). concat q.1) whole ∙ r2.left,
    )

-- When the stream begins with an encoded message, whose fields fit and whose payload has the permitted
-- length, then the server's reader gets the header and the payload of that message and leaves what
-- comes behind it, however the stream is cut into chunks.
pub receive_message-encode_message :
    (opcode flags request_id : ℕ) (payload : Bytes) (override : Option ℕ) (bs rest : Bytes)
    (arrived : List Bytes)
    → opcode < 256
    → flags < 256
    → final_req_id request_id override < 2 ^ 32
    → length payload ≤ max_payload_len
    → encode_message opcode flags request_id payload override ≡ ok bs
    → NonEmpty arrived
    → concat arrived ≡ bs ++ rest
    → ((receive_message arrived).0 ≡ ok (take header_size bs, payload))
      × (concat (receive_message arrived).1 ≡ rest)
receive_message-encode_message opcode flags request_id payload override bs rest arrived o g r l made
      full e =
    let (bs', made', decoded', tail') =
      decode_header-encode_message opcode flags request_id payload override o g r l in
    let same : bs' ≡ bs = ground (arith, made, made') in
    let decoded =
      subst
        (λ b.
          decode_header (take header_size b)
          ≡ ok (record {
            version = protocol_version;
            opcode = opcode;
            flags = flags;
            reserved = 0;
            request_id = final_req_id request_id override;
            payload_len = length payload;
          }))
        same decoded' in
    let tail = subst (λ b. drop header_size b ≡ payload) same tail' in
    let parts : bs ≡ take header_size bs ++ payload =
      sym (take-append-drop header_size bs) ∙ ap (λ t. take header_size bs ++ t) tail in
    message_read (take header_size bs) payload rest _ arrived full
      (e ∙ ap (λ b. b ++ rest) parts ∙ append_assoc (take header_size bs) payload rest) decoded refl
