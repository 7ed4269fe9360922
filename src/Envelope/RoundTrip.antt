-- ===== src/Envelope/RoundTrip.antt =====
-- What is sent is what is read: headers, messages and mixed payloads.
use rudp_agent_stack.Base.{
  ℕ, suc, ap₂, ◌+◌, ◌/◌, ◌%◌, ◌^◌, ◌≤◌, ◌<◌, ◌≡◌, refl, ap, ◌∙◌, false, Option, [], ◌∷◌, ◌++◌, ok,
  err, arith, ltb, if◌then◌else◌, length, take, drop, length-append, take_prefix,
}
use rudp_agent_stack.Constants.{protocol_version, max_payload_len, header_size, meta_len_size}
use rudp_agent_stack.Exceptions.{Py, value_error, payload_incomplete}
use rudp_agent_stack.Bytes.{Bytes, be32, read32}
use rudp_agent_stack.Envelope.{
  AppHeader, encode_header, decode_header, final_req_id, encode_message, check_header,
}
use rudp_agent_stack.Envelope.MixedMode.{Json, ReadsBack, encode, decode, with_metadata}

be32_read : (v : ℕ) → v < 2 ^ 32 → read32 (be32 v) 0 ≡ v
be32_read v h = omega arith

abbrev header_bytes : ℕ → ℕ → ℕ → ℕ → Bytes
header_bytes opcode flags request_id n =
    protocol_version ∷ opcode ∷ flags ∷ 0 ∷ be32 request_id ++ be32 n

encode_header_ok :
    (opcode flags request_id n : ℕ)
    → opcode < 256
    → flags < 256
    → request_id < 2 ^ 32
    → n ≤ max_payload_len
    → encode_header protocol_version opcode flags request_id n
      ≡ ok (header_bytes opcode flags request_id n)
unfolding encode_header
encode_header_ok opcode flags request_id n o g r l = ground arith

check_header_ok :
    (h : AppHeader)
    → h.version ≡ protocol_version
    → h.payload_len ≤ max_payload_len
    → check_header h ≡ ok h
check_header_ok h v l = ground arith

decode_header_ok :
    (opcode flags request_id n : ℕ)
    → request_id < 2 ^ 32
    → n ≤ max_payload_len
    → decode_header (header_bytes opcode flags request_id n)
      ≡ ok (record {
        version = protocol_version;
        opcode = opcode;
        flags = flags;
        reserved = 0;
        request_id = request_id;
        payload_len = n;
      })
unfolding decode_header
decode_header_ok opcode flags request_id n r l =
    ap check_header (
      ap₂
        (λ a b. record {
          version = protocol_version;
          opcode = opcode;
          flags = flags;
          reserved = 0;
          request_id = a;
          payload_len = b;
        })
        (be32_read request_id r) (be32_read n (omega arith)))
    ∙ check_header_ok
        (record {
          version = protocol_version;
          opcode = opcode;
          flags = flags;
          reserved = 0;
          request_id = request_id;
          payload_len = n;
        })
        refl l

-- A message whose opcode and flags fit a byte, whose request id fits 32 bits and whose payload has the
-- permitted length encodes, and a reader that takes the header off the front and then the length that
-- it states gets the fields and the payload back.
pub decode_header-encode_message :
    (opcode flags request_id : ℕ) (payload : Bytes) (override : Option ℕ)
    → opcode < 256
    → flags < 256
    → final_req_id request_id override < 2 ^ 32
    → length payload ≤ max_payload_len
    → (bs : Bytes) × (encode_message opcode flags request_id payload override ≡ ok bs)
      × (decode_header (take header_size bs)
          ≡ ok (record {
            version = protocol_version;
            opcode = opcode;
            flags = flags;
            reserved = 0;
            request_id = final_req_id request_id override;
            payload_len = length payload;
          }))
      × (drop header_size bs ≡ payload)
unfolding encode_message
decode_header-encode_message opcode flags request_id payload override o g r l = (
  header_bytes opcode flags (final_req_id request_id override) (length payload) ++ payload,
  rw (encode_header_ok opcode flags (final_req_id request_id override) (length payload) o g r l)
      refl,
  decode_header_ok opcode flags (final_req_id request_id override) (length payload) r l,
  refl,
)

pub drop_prefix : (xs ys : Bytes) → drop (length xs) (xs ++ ys) ≡ ys
drop_prefix [] ys = refl
drop_prefix (x ∷ xs) ys = drop_prefix xs ys

drop_four : (a b c d k : ℕ) (rest : Bytes) → drop (4 + k) (a ∷ b ∷ c ∷ d ∷ rest) ≡ drop k rest
drop_four a b c d k rest =
    let e : 4 + k ≡ suc (suc (suc (suc k))) = omega arith in
    ap (λ m. drop m (a ∷ b ∷ c ∷ d ∷ rest)) e

module _ (j : Json) (laws : ReadsBack j) where
  open j use {Metadata, dumps, loads}

  -- `decode` behind the reading of the length, for the bytes that `encode` makes.
  abbrev body : Bytes → Bytes → ℕ → Py (Metadata × Bytes)
  body meta binary_data k =
      let whole = be32 (length meta) ++ (meta ++ binary_data) in
      if ltb (length whole) (meta_len_size + k)
      then err (value_error payload_incomplete)
      else with_metadata j (loads (take k (meta ++ binary_data))) (drop (meta_len_size + k) whole)

  body_ok :
      (metadata : Metadata) (binary_data : Bytes)
      → body (dumps metadata) binary_data (length (dumps metadata)) ≡ ok (metadata, binary_data)
  body_ok metadata binary_data =
      let meta = dumps metadata in
      let n = length meta in
      let long : ltb (length (be32 n ++ (meta ++ binary_data))) (meta_len_size + n) ≡ false =
        ground (arith, length-append meta binary_data) in
      rw
        (
          long,
          take_prefix meta binary_data,
          laws.loads-dumps metadata,
          drop_four (n / 2 ^ 24) (n / 2 ^ 16 % 256) (n / 2 ^ 8 % 256) (n % 256) n
              (meta ++ binary_data),
          drop_prefix meta binary_data,
        )
        refl

  encode_ok :
      (metadata : Metadata) (binary_data : Bytes)
      → length (dumps metadata) < 2 ^ 32
      → encode j metadata binary_data
        ≡ ok (be32 (length (dumps metadata)) ++ (dumps metadata ++ binary_data))
  unfolding encode
  encode_ok metadata binary_data fits32 = ground arith

  -- For a JSON module that reads back what it writes: metadata whose text is shorter than 4 GiB encodes
  -- with any binary data, and decoding gives both back.
  pub decode-encode :
      (metadata : Metadata) (binary_data : Bytes)
      → length (dumps metadata) < 2 ^ 32
      → (bs : Bytes) × (encode j metadata binary_data ≡ ok bs)
        × (decode j bs ≡ ok (metadata, binary_data))
  unfolding decode
  decode-encode metadata binary_data fits32 =
      let meta = dumps metadata in
      let n = length meta in
      let long : ltb (length (be32 n ++ (meta ++ binary_data))) meta_len_size ≡ false =
        ground arith in
      (
        be32 n ++ (meta ++ binary_data),
        encode_ok metadata binary_data fits32,
        rw long (ap (body meta binary_data) (be32_read n fits32) ∙ body_ok metadata binary_data),
      )
