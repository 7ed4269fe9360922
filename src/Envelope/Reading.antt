-- ===== src/Envelope/Reading.antt =====
-- Reading from a stream that comes in chunks, in receive_exact.
use rudp_agent_stack.Base.{
  ℕ, zero, suc, ◌+◌, ◌-◌, ◌≤◌, ◌<◌, ◌≡◌, refl, sym, ap, ap₂, ◌∙◌, true, false, inl, inr, List, [],
  ◌∷◌, ◌++◌, ok, arith, ltb, ◌==◌, Bool-cases, length, take, drop, All, length-append, length-take,
  length-drop, append_assoc, append-nil,
}
use rudp_agent_stack.Exceptions.{Py}
use rudp_agent_stack.Bytes.{Bytes}
use rudp_agent_stack.Envelope.Stream.{put_back, receive_loop, receive_exact}

-- The bytes that are still to come.
abbrev pub concat : List Bytes → Bytes
concat [] = []
concat (chunk ∷ rest) = chunk ++ concat rest

abbrev pub NonEmpty : List Bytes → Type 0
NonEmpty = All (λ chunk. 0 < length chunk)

concat-put_back : (bs : Bytes) (rest : List Bytes) → concat (put_back bs rest) ≡ bs ++ concat rest
concat-put_back [] rest = refl
concat-put_back (b ∷ bs) rest = refl

put_back-NonEmpty : (bs : Bytes) (rest : List Bytes) → NonEmpty rest → NonEmpty (put_back bs rest)
put_back-NonEmpty [] rest h = h
put_back-NonEmpty (b ∷ bs) rest h = (omega arith, h)

sub_zero : (k : ℕ) → k ≡ k - 0
sub_zero k = omega arith

sub_suc : (k n : ℕ) → k - n ≡ suc k - suc n
sub_suc k n = omega arith

take_cut :
    (c d : Bytes) (k : ℕ)
    → take k (c ++ d) ≡ take k c ++ take (k - length (take k c)) (drop k c ++ d)
take_cut [] d zero = refl
take_cut [] d (suc k) = ap (λ n. take n d) (sub_zero (suc k))
take_cut (x ∷ c) d zero = refl
take_cut (x ∷ c) d (suc k) =
    ap (λ l. x ∷ l)
      (take_cut c d k
        ∙ ap (λ n. take k c ++ take n (drop k c ++ d)) (sub_suc k (length (take k c))))

drop_cut : (c d : Bytes) (k : ℕ) → drop k (c ++ d) ≡ drop (k - length (take k c)) (drop k c ++ d)
drop_cut [] d zero = refl
drop_cut [] d (suc k) = ap (λ n. drop n d) (sub_zero (suc k))
drop_cut (x ∷ c) d zero = refl
drop_cut (x ∷ c) d (suc k) =
    drop_cut c d k ∙ ap (λ n. drop n (drop k c ++ d)) (sub_suc k (length (take k c)))

-- The bytes that were asked for, and the stream behind them.
pub record Reads (wanted rest : Bytes) (r : Py Bytes × List Bytes) : Type 0 where
  pub got : r.0 ≡ ok wanted
  pub left : concat r.1 ≡ rest
  pub tidy : NonEmpty r.1

loop_done :
    (fuel nbytes : ℕ) (buf : Bytes) (arrived : List Bytes)
    → nbytes ≤ length buf
    → receive_loop fuel nbytes buf arrived ≡ (ok buf, arrived)
unfolding receive_loop
loop_done zero nbytes buf arrived h = refl
loop_done (suc fuel) nbytes buf arrived h =
    let e : ltb (length buf) nbytes ≡ false = ground arith in rw e refl

-- One round that reads a part of the first chunk.
loop_round :
    (fuel nbytes : ℕ) (buf c : Bytes) (cs : List Bytes)
    → length buf < nbytes
    → 0 < length c
    → receive_loop (suc fuel) nbytes buf (c ∷ cs)
      ≡ receive_loop fuel nbytes
          (buf ++ take (nbytes - length buf) c)
          (put_back (drop (nbytes - length buf) c) cs)
unfolding receive_loop
loop_round fuel nbytes buf c cs more full =
    let k = nbytes - length buf in
    let wanted : ltb (length buf) nbytes ≡ true = ground arith in
    let some_bytes : (length (take k c) == 0) ≡ false = ground (arith, length-take k c) in
    rw (wanted, some_bytes) refl

loop_finished :
    (fuel nbytes : ℕ) (buf : Bytes) (arrived : List Bytes)
    → NonEmpty arrived
    → length buf ≡ nbytes
    → Reads
        (buf ++ take (nbytes - length buf) (concat arrived))
        (drop (nbytes - length buf) (concat arrived))
        (receive_loop fuel nbytes buf arrived)
loop_finished fuel nbytes buf arrived full e =
    let none_left : nbytes - length buf ≡ 0 = omega arith in
    rw (none_left, loop_done fuel nbytes buf arrived (omega arith), append-nil)
      (record { got = refl; left = refl; tidy = full })

loop_Reads :
    (fuel nbytes : ℕ) (buf : Bytes) (arrived : List Bytes)
    → NonEmpty arrived
    → nbytes ≤ fuel + length buf
    → length buf ≤ nbytes
    → nbytes ≤ length buf + length (concat arrived)
    → Reads
        (buf ++ take (nbytes - length buf) (concat arrived))
        (drop (nbytes - length buf) (concat arrived))
        (receive_loop fuel nbytes buf arrived)
loop_Reads zero nbytes buf arrived full enough small there =
    loop_finished zero nbytes buf arrived full (omega arith)
loop_Reads (suc fuel) nbytes buf [] full enough small there =
    loop_finished (suc fuel) nbytes buf [] full (omega arith)
loop_Reads (suc fuel) nbytes buf (c ∷ cs) full enough small there =
    elim (Bool-cases (ltb (length buf) nbytes)) [
      | inr done ↦ loop_finished (suc fuel) nbytes buf (c ∷ cs) full (ground arith)
      | inl more ↦
          let k = nbytes - length buf in
          let chunk = take k c in
          let rest = put_back (drop k c) cs in
          let size = length-take k c in
          let longer = length-append buf chunk in
          let back = concat-put_back (drop k c) cs in
          let total : length (concat rest) ≡ length (drop k c) + length (concat cs) =
            ap (λ (l : Bytes). length l) back ∙ length-append (drop k c) (concat cs) in
          let whole : length (concat (c ∷ cs)) ≡ length c + length (concat cs) =
            length-append c (concat cs) in
          let same : nbytes - length (buf ++ chunk) ≡ k - length chunk = omega (arith, longer) in
          let h : Reads ((buf ++ chunk) ++ take (nbytes - length (buf ++ chunk)) (concat rest))
              (drop (nbytes - length (buf ++ chunk)) (concat rest))
              (receive_loop fuel nbytes (buf ++ chunk) rest) =
            loop_Reads fuel nbytes (buf ++ chunk) rest (put_back-NonEmpty (drop k c) cs full.1)
              (omega (arith, longer, size, full.0)) (omega (arith, longer, size))
              (omega (arith, longer, size, total, whole, length-drop k c)) in
          let wanted : (buf ++ chunk) ++ take (nbytes - length (buf ++ chunk)) (concat rest)
              ≡ buf ++ take k (c ++ concat cs) =
            append_assoc buf chunk _
            ∙ ap (λ l. buf ++ l)
                (ap₂ (λ n l. chunk ++ take n l) same back ∙ sym (take_cut c (concat cs) k)) in
          let behind : drop (nbytes - length (buf ++ chunk)) (concat rest)
              ≡ drop k (c ++ concat cs) =
            ap₂ (λ n (l : Bytes). drop n l) same back ∙ sym (drop_cut c (concat cs) k) in
          rw (loop_round fuel nbytes buf c cs (ground arith) full.0)
            (record { got = h.got ∙ ap ok wanted; left = h.left ∙ behind; tidy = h.tidy })
    ]

-- When enough bytes are to come, `receive_exact` returns exactly the next `nbytes` of them and leaves
-- the rest, however the stream is cut into chunks.
pub receive_exact-Reads :
    (nbytes : ℕ) (arrived : List Bytes)
    → NonEmpty arrived
    → nbytes ≤ length (concat arrived)
    → Reads
        (take nbytes (concat arrived))
        (drop nbytes (concat arrived))
        (receive_exact nbytes arrived)
unfolding receive_exact
receive_exact-Reads nbytes arrived full there =
    let all : nbytes - 0 ≡ nbytes = omega arith in
    let h = loop_Reads nbytes nbytes [] arrived full (omega arith) (omega arith) (omega arith) in
    record {
      got = h.got ∙ ap (λ n. ok (take n (concat arrived))) all;
      left = h.left ∙ ap (λ n. drop n (concat arrived)) all;
      tidy = h.tidy;
    }
