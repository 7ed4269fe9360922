-- ===== src/Rudp/Packet/Corruption.antt =====
-- A damaged byte is always noticed.
use native.Mathlib.Decide.{ℕ_discrete}
use rudp_agent_stack.Base.{
  ℕ, ◌<◌, ◌≡◌, refl, sym, ap, ◌∙◌, true, false, inl, inr, ◌≢◌, ok, err, arith, length, set, get_or,
  length-set, All-set, set-set, set_comm, get_or-set_ne, get_or-set_self,
}
use rudp_agent_stack.Exceptions.{checksum_error}
use rudp_agent_stack.Bytes.{Bytes, IsBytes}
use rudp_agent_stack.Rudp.Packet.{RudpPacket, checksum_of, unpack, parse_fixed, parse_data}
use rudp_agent_stack.Rudp.Packet.Checksum.{checksum_of-set_ne}
use rudp_agent_stack.Rudp.Packet.Reading.{
  accepted_size, unpack_data_view, unpack_fixed_view, with_checksum, byte_at, matches, if_accepted,
}

-- A damaged byte in front of the checksum field or behind it changes the sum alone.
set_elsewhere :
    (bs : Bytes) (i b : ℕ)
    → i ≢ 11
    → i ≢ 12
    → with_checksum 0 (set bs i b) ≡ set (with_checksum 0 bs) i b
set_elsewhere bs i b n11 n12 =
    ap (λ (w : Bytes). set w 12 0) (set_comm bs i 11 b 0 n11) ∙ set_comm (set bs 11 0) i 12 b 0 n12

elsewhere :
    (bs : Bytes) (i b : ℕ)
    → IsBytes bs
    → i < length bs
    → b < 256
    → b ≢ get_or bs i 0
    → i ≢ 11
    → i ≢ 12
    → matches bs ≡ true
    → matches (set bs i b) ≡ false
elsewhere bs i b h inside small ne n11 n12 sum =
    let old : get_or (with_checksum 0 bs) i 0 ≡ get_or bs i 0 =
      get_or-set_ne (set bs 11 0) 12 i 0 0 (λ e. n12 (sym e))
      ∙ get_or-set_ne bs 11 i 0 0 (λ e. n11 (sym e)) in
    let size : length (with_checksum 0 bs) ≡ length bs =
      length-set (set bs 11 0) 12 0 ∙ length-set bs 11 0 in
    let changed : checksum_of (set (with_checksum 0 bs) i b) ≢ checksum_of (with_checksum 0 bs) =
      checksum_of-set_ne (with_checksum 0 bs) i b (omega arith) (omega (arith, byte_at bs i h))
        small (λ e. ne (e ∙ old)) in
    rw (set_elsewhere bs i b n11 n12, get_or-set_ne bs i 11 b 0 n11, get_or-set_ne bs i 12 b 0 n12)
      (ground arith)

-- A damaged byte of the field changes the stored sum alone.
high_byte_of_sum :
    (bs : Bytes) (b : ℕ)
    → 11 < length bs
    → b ≢ get_or bs 11 0
    → matches bs ≡ true
    → matches (set bs 11 b) ≡ false
high_byte_of_sum bs b inside ne sum =
    rw
      (
        ap (λ (w : Bytes). set w 12 0) (set-set bs 11 b 0),
        get_or-set_self bs 11 b 0 inside,
        get_or-set_ne bs 11 12 b 0 (omega arith),
      )
      (ground arith)

low_byte_of_sum :
    (bs : Bytes) (b : ℕ)
    → 12 < length bs
    → b ≢ get_or bs 12 0
    → matches bs ≡ true
    → matches (set bs 12 b) ≡ false
low_byte_of_sum bs b inside ne sum =
    let same : with_checksum 0 (set bs 12 b) ≡ with_checksum 0 bs =
      ap (λ (w : Bytes). set w 12 0) (set_comm bs 12 11 b 0 (omega arith))
      ∙ set-set (set bs 11 0) 12 b 0 in
    rw (same, get_or-set_self bs 12 b 0 inside, get_or-set_ne bs 12 11 b 0 (omega arith))
      (ground arith)

matches-set :
    (bs : Bytes) (i b : ℕ)
    → IsBytes bs
    → i < length bs
    → b < 256
    → b ≢ get_or bs i 0
    → matches bs ≡ true
    → matches (set bs i b) ≡ false
matches-set bs i b h inside small ne sum = elim (ℕ_discrete i 11) [
  | yes e11 ↦ rw e11 (
      high_byte_of_sum bs b (rw e11 at inside) (λ e. ne (e ∙ ap (λ k. get_or bs k 0) (sym e11)))
        sum)
  | no n11 ↦ elim (ℕ_discrete i 12) [
    | yes e12 ↦ rw e12 (
        low_byte_of_sum bs b (rw e12 at inside) (λ e. ne (e ∙ ap (λ k. get_or bs k 0) (sym e12)))
          sum)
    | no n12 ↦ elsewhere bs i b h inside small ne n11 n12 sum
  ]
]

-- A single damaged byte is noticed: when `unpack` accepts a datagram, it raises the checksum error for
-- the same datagram with any one byte replaced by a different one.
pub unpack-set_ne :
    (bs : Bytes) (p : RudpPacket) (i b : ℕ)
    → IsBytes bs
    → unpack bs ≡ ok p
    → i < length bs
    → b < 256
    → b ≢ get_or bs i 0
    → unpack (set bs i b) ≡ err checksum_error
unpack-set_ne bs p i b h e inside small ne = elim (accepted_size bs h p e) [
  | inl size ↦
      let sum =
        if_accepted (matches bs) (parse_fixed bs) p (sym (unpack_fixed_view bs h size) ∙ e) in
      unpack_fixed_view (set bs i b) (All-set (λ b. b < 256) bs i b h small)
        (length-set bs i b ∙ size)
      ∙ rw (matches-set bs i b h inside small ne sum.0) refl
  | inr size ↦
      let sum = if_accepted (matches bs) (parse_data bs) p (sym (unpack_data_view bs h size) ∙ e) in
      unpack_data_view (set bs i b) (All-set (λ b. b < 256) bs i b h small)
        (omega (arith, length-set bs i b))
      ∙ rw (matches-set bs i b h inside small ne sum.0) refl
]
