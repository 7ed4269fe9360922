-- ===== src/Rudp/Packet/Checksum.antt =====
-- The ones' complement checksum in closed form.
use native.Mathlib.Nat.{le_refl, zero-add}
use rudp_agent_stack.Base.{
  ℕ, zero, suc, sym, ◌∙◌, ◌+◌, ◌-◌, ◌*◌, ◌/◌, ◌%◌, ◌≤◌, ◌<◌, ◌≡◌, refl, inl, inr, ◌⊎◌, ◌≢◌, [], ◌∷◌,
  arith, ◌==◌, if◌then◌else◌, length, set, get_or,
}
use rudp_agent_stack.Bytes.{Bytes}
use rudp_agent_stack.Rudp.Packet.{pad_even, sum_words, add_carries, checksum_of}

-- The sum of the big-endian words, an odd last byte as the high byte of a word.
abbrev pub word_sum : Bytes → ℕ
word_sum [] = 0
word_sum (a ∷ []) = a * 256
word_sum (a ∷ b ∷ rest) = a * 256 + b + word_sum rest

sum_words-append_zero : (bs : Bytes) (acc : ℕ) → sum_words acc (pad_even bs) ≡ acc + word_sum bs
unfolding sum_words pad_even
sum_words-append_zero [] acc = omega arith
sum_words-append_zero (a ∷ []) acc = omega arith
sum_words-append_zero (a ∷ b ∷ rest) acc =
    ground (arith, sum_words-append_zero rest (acc + (a * 256 + b)))

record IsFolded (total folded : ℕ) : Type 0 where
  small : folded < 65536
  same : folded % 65535 ≡ total % 65535
  kept : folded ≡ 0 → total ≡ 0

add_carries-IsFolded : (fuel c : ℕ) → c ≤ fuel → IsFolded c (add_carries fuel c)
unfolding add_carries
add_carries-IsFolded zero c h = omega arith
add_carries-IsFolded (suc fuel) c h =
    ground (arith, add_carries-IsFolded fuel (c % 65536 + c / 65536))

abbrev pub closed_form : ℕ → ℕ
closed_form total = if total % 65535 == 0 then 65535 else 65535 - total % 65535

finish :
    (total folded : ℕ)
    → IsFolded total folded
    → (let final = 65535 - folded % 65536 in if final == 0 then 65535 else final)
      ≡ closed_form total
finish total folded h = ground arith

-- The loops compute the ones' complement sum: the checksum depends on the sum of the words modulo
-- 65535 alone.
pub checksum_of-eq-closed_form : (bs : Bytes) → checksum_of bs ≡ closed_form (word_sum bs)
unfolding checksum_of
checksum_of-eq-closed_form bs =
    rw (sum_words-append_zero bs 0, zero-add)
      (finish _ _ (add_carries-IsFolded (word_sum bs) (word_sum bs) (le_refl _)))

abbrev pub weight : ℕ → ℕ
weight zero = 256
weight (suc zero) = 1
weight (suc (suc i)) = weight i

pub word_sum-set :
    (bs : Bytes) (i b : ℕ)
    → i < length bs
    → word_sum (set bs i b) + weight i * get_or bs i 0 ≡ word_sum bs + weight i * b
word_sum-set [] i b h = absurd (omega arith)
word_sum-set (a ∷ []) zero b h = omega arith
word_sum-set (a ∷ []) (suc i) b h = absurd (omega arith)
word_sum-set (a ∷ c ∷ rest) zero b h = omega arith
word_sum-set (a ∷ c ∷ rest) (suc zero) b h = omega arith
word_sum-set (a ∷ c ∷ rest) (suc (suc i)) b h = omega (arith, word_sum-set rest i b (omega arith))

weight_cases : (i : ℕ) → (weight i ≡ 256) ⊎ (weight i ≡ 1)
weight_cases zero = inl refl
weight_cases (suc zero) = inr refl
weight_cases (suc (suc i)) = weight_cases i

closed_form_injective : (s t : ℕ) → closed_form s ≡ closed_form t → s % 65535 ≡ t % 65535
closed_form_injective s t h = ground arith

high_byte :
    (s t x y : ℕ) → x < 256 → y < 256 → s % 65535 ≡ t % 65535 → s + 256 * x ≡ t + 256 * y → x ≡ y
high_byte s t x y hx hy same sum = omega arith

low_byte : (s t x y : ℕ) → x < 256 → y < 256 → s % 65535 ≡ t % 65535 → s + 1 * x ≡ t + 1 * y → x ≡ y
low_byte s t x y hx hy same sum = omega arith

one_byte :
    (w s t x y : ℕ)
    → (w ≡ 256) ⊎ (w ≡ 1)
    → x < 256
    → y < 256
    → s % 65535 ≡ t % 65535
    → s + w * x ≡ t + w * y
    → x ≡ y
one_byte w s t x y (inl e) hx hy same sum = high_byte s t x y hx hy same (rw e at sum)
one_byte w s t x y (inr e) hx hy same sum = low_byte s t x y hx hy same (rw e at sum)

-- A change of one byte changes the checksum.
pub checksum_of-set_ne :
    (bs : Bytes) (i b : ℕ)
    → i < length bs
    → get_or bs i 0 < 256
    → b < 256
    → b ≢ get_or bs i 0
    → checksum_of (set bs i b) ≢ checksum_of bs
checksum_of-set_ne bs i b inside old new ne = λ e. ne (
    sym (
      one_byte (weight i) (word_sum (set bs i b)) (word_sum bs) (get_or bs i 0) b (weight_cases i)
        old new
        (closed_form_injective _ _
          (sym (checksum_of-eq-closed_form (set bs i b)) ∙ e ∙ checksum_of-eq-closed_form bs))
        (word_sum-set bs i b inside)))
