-- ===== src/Rudp/Packet/Reading.antt =====
-- What `unpack` accepts is exactly what `pack` writes.
use rudp_agent_stack.Base.{
  ℕ, ◌+◌, ◌*◌, ◌/◌, ◌%◌, ◌^◌, ◌≤◌, ◌<◌, ◌≡◌, refl, sym, ap, ◌∙◌, Bool, true, false, inl, inr, ◌⊎◌,
  [], ◌∷◌, ◌++◌, ok, err, arith, ◌==◌, if◌then◌else◌, ==_iff, subst, length, set, get_or,
  All-get_or,
}
use rudp_agent_stack.Exceptions.{checksum_error}
use rudp_agent_stack.Bytes.{Bytes, IsBytes, be16, be32, read16, read32}
use rudp_agent_stack.Rudp.Packet.{
  RudpPacket, calculate_checksum, checksum_of, pack, unpack, verify, parse_fixed, parse_data,
}
use rudp_agent_stack.Rudp.Packet.RoundTrip.{
  IsSendable, wire_bytes, own_checksum, calculate_checksum_ok, pack_ok, unpack_data, unpack_fixed,
}

-- The same bytes with another checksum field.
abbrev pub with_checksum : ℕ → Bytes → Bytes
with_checksum c bs = set (set bs 11 (c / 256)) 12 (c % 256)

be32_of_bytes :
    (a b c d : ℕ)
    → a < 256
    → b < 256
    → c < 256
    → d < 256
    → be32 (a * 2 ^ 24 + b * 2 ^ 16 + c * 2 ^ 8 + d) ≡ a ∷ b ∷ c ∷ d ∷ []
be32_of_bytes a b c d h1 h2 h3 h4 = ground arith

be16_of_bytes : (a b : ℕ) → a < 256 → b < 256 → be16 (a * 256 + b) ≡ a ∷ b ∷ []
be16_of_bytes a b h1 h2 = ground arith

wire_parse_data :
    (bs : Bytes) (c : ℕ)
    → 21 ≤ length bs
    → IsBytes bs
    → wire_bytes (parse_data bs) c ≡ with_checksum c bs
unfolding parse_data
wire_parse_data
      (b0 ∷ b1 ∷ b2 ∷ b3 ∷ b4 ∷ b5 ∷ b6 ∷ b7 ∷ b8 ∷ b9 ∷ b10 ∷ b11 ∷ b12 ∷ b13 ∷ b14 ∷ b15 ∷ b16
        ∷ b17 ∷ b18 ∷ b19 ∷ b20 ∷ rest)
      c h k =
    λ i.
      be32_of_bytes b0 b1 b2 b3 (omega arith) (omega arith) (omega arith) (omega arith) i
      ++ (be32_of_bytes b4 b5 b6 b7 (omega arith) (omega arith) (omega arith) (omega arith) i
          ++ (b8 ∷ be16_of_bytes b9 b10 (omega arith) (omega arith) i ++ be16 c))
      ++ ((be32_of_bytes b13 b14 b15 b16 (omega arith) (omega arith) (omega arith) (omega arith) i
            ++ be32_of_bytes b17 b18 b19 b20 (omega arith) (omega arith) (omega arith) (omega arith)
                i)
          ++ rest)
wire_parse_data _ c h k = absurd (omega arith)

wire_parse_fixed :
    (bs : Bytes) (c : ℕ)
    → length bs ≡ 13
    → IsBytes bs
    → wire_bytes (parse_fixed bs) c ≡ with_checksum c bs
unfolding parse_fixed
wire_parse_fixed (b0 ∷ b1 ∷ b2 ∷ b3 ∷ b4 ∷ b5 ∷ b6 ∷ b7 ∷ b8 ∷ b9 ∷ b10 ∷ b11 ∷ b12 ∷ []) c h k =
    λ i.
      (be32_of_bytes b0 b1 b2 b3 (omega arith) (omega arith) (omega arith) (omega arith) i
        ++ (be32_of_bytes b4 b5 b6 b7 (omega arith) (omega arith) (omega arith) (omega arith) i
            ++ (b8 ∷ be16_of_bytes b9 b10 (omega arith) (omega arith) i ++ be16 c)))
      ++ []
wire_parse_fixed _ c h k = absurd (omega arith)

pub byte_at : (bs : Bytes) (i : ℕ) → IsBytes bs → get_or bs i 0 < 256
byte_at bs i h = All-get_or (λ b. b < 256) bs i 0 h (omega arith)

abbrev pub matches : Bytes → Bool
matches bs = read16 bs 11 == checksum_of (with_checksum 0 bs)

read32-lt : (bs : Bytes) (i : ℕ) → IsBytes bs → read32 bs i < 2 ^ 32
read32-lt bs i h =
    omega (arith, byte_at bs i h, byte_at bs (i + 1) h, byte_at bs (i + 2) h, byte_at bs (i + 3) h)

read16-lt : (bs : Bytes) (i : ℕ) → IsBytes bs → read16 bs i < 2 ^ 16
read16-lt bs i h = omega (arith, byte_at bs i h, byte_at bs (i + 1) h)

verify_sum :
    (p : RudpPacket) (c : ℕ)
    → calculate_checksum p ≡ ok c
    → verify p ≡ (if p.checksum == c then ok p else err checksum_error)
unfolding verify
verify_sum p c e = rw e

module _ (bs : Bytes) (h : IsBytes bs) where
  parse_data-IsSendable : IsSendable (parse_data bs)
  unfolding parse_data
  parse_data-IsSendable = record {
    seq_fits = read32-lt bs 0 h;
    ack_fits = read32-lt bs 4 h;
    flags_fit = byte_at bs 8 h;
    rwnd_fits = read16-lt bs 9 h;
    shape = (read32-lt bs 13 h, read32-lt bs 17 h);
  }

  parse_fixed-IsSendable : IsSendable (parse_fixed bs)
  unfolding parse_fixed
  parse_fixed-IsSendable = record {
    seq_fits = read32-lt bs 0 h;
    ack_fits = read32-lt bs 4 h;
    flags_fit = byte_at bs 8 h;
    rwnd_fits = read16-lt bs 9 h;
    shape = tt;
  }

  parse_data-sum :
      21 ≤ length bs → calculate_checksum (parse_data bs) ≡ ok (checksum_of (with_checksum 0 bs))
  parse_data-sum size =
      calculate_checksum_ok (parse_data bs) parse_data-IsSendable
      ∙ ap (λ w. ok (checksum_of w)) (wire_parse_data bs 0 size h)

  parse_fixed-sum :
      length bs ≡ 13 → calculate_checksum (parse_fixed bs) ≡ ok (checksum_of (with_checksum 0 bs))
  parse_fixed-sum size =
      calculate_checksum_ok (parse_fixed bs) parse_fixed-IsSendable
      ∙ ap (λ w. ok (checksum_of w)) (wire_parse_fixed bs 0 size h)

  pub unpack_data_view :
      21 ≤ length bs → unpack bs ≡ (if matches bs then ok (parse_data bs) else err checksum_error)
  unfolding parse_data
  unpack_data_view size = unpack_data bs size ∙ verify_sum (parse_data bs) _ (parse_data-sum size)

  pub unpack_fixed_view :
      length bs ≡ 13 → unpack bs ≡ (if matches bs then ok (parse_fixed bs) else err checksum_error)
  unfolding parse_fixed
  unpack_fixed_view size =
      unpack_fixed bs size ∙ verify_sum (parse_fixed bs) _ (parse_fixed-sum size)

  pub accepted_size : (p : RudpPacket) → unpack bs ≡ ok p → (length bs ≡ 13) ⊎ (21 ≤ length bs)
  unfolding unpack
  accepted_size p e = ground arith

set_back : (bs : Bytes) → 13 ≤ length bs → IsBytes bs → with_checksum (read16 bs 11) bs ≡ bs
set_back (b0 ∷ b1 ∷ b2 ∷ b3 ∷ b4 ∷ b5 ∷ b6 ∷ b7 ∷ b8 ∷ b9 ∷ b10 ∷ b11 ∷ b12 ∷ rest) h k =
    ground arith
set_back _ h k = absurd (omega arith)

repack :
    (bs : Bytes) (p : RudpPacket)
    → 13 ≤ length bs
    → IsBytes bs
    → matches bs ≡ true
    → IsSendable p
    → p.checksum ≡ read16 bs 11
    → ((c : ℕ) → wire_bytes p c ≡ with_checksum c bs)
    → pack p ≡ ok (bs, p)
repack bs p size h sum good same wire =
    let own : own_checksum p ≡ p.checksum =
      ap checksum_of (wire 0) ∙ sym ((==_iff _ _).0 sum) ∙ sym same in
    let back : wire_bytes p p.checksum ≡ bs =
      wire p.checksum ∙ ap (λ c. with_checksum c bs) same ∙ set_back bs size h in
    pack_ok p good
    ∙ ap (λ c. ok (wire_bytes p c, record p { checksum = c })) own
    ∙ ap (λ w. ok (w, p)) back

pub if_accepted :
    (b : Bool) (q p : RudpPacket)
    → (if b then ok q else err checksum_error) ≡ ok p
    → (b ≡ true) × (q ≡ p)
if_accepted true q p e = (refl, ground arith)
if_accepted false q p e = absurd (ground arith)

-- Whatever `unpack` accepts from a list of bytes packs back to the same bytes, and packing changes
-- nothing in it.
pub pack-unpack :
    (bs : Bytes) (p : RudpPacket) → IsBytes bs → unpack bs ≡ ok p → pack p ≡ ok (bs, p)
unfolding parse_fixed parse_data
pack-unpack bs p h e = elim (accepted_size bs h p e) [
  | inl size ↦
      let (sum, same) =
        if_accepted (matches bs) (parse_fixed bs) p (sym (unpack_fixed_view bs h size) ∙ e) in
      subst (λ q. pack q ≡ ok (bs, q)) same
        (repack bs (parse_fixed bs) (omega arith) h sum (parse_fixed-IsSendable bs h) refl
          (λ c. wire_parse_fixed bs c size h))
  | inr size ↦
      let (sum, same) =
        if_accepted (matches bs) (parse_data bs) p (sym (unpack_data_view bs h size) ∙ e) in
      subst (λ q. pack q ≡ ok (bs, q)) same
        (repack bs (parse_data bs) (omega arith) h sum (parse_data-IsSendable bs h) refl
          (λ c. wire_parse_data bs c size h))
]
