-- ===== src/Upload/Writes.antt =====
-- What the calls of the file writer make of a file.
use rudp_agent_stack.Base.{
  ℕ, zero, suc, ◌+◌, ◌≤◌, ◌≡◌, refl, sym, ap, ap₂, ◌∙◌, String, List, [], ◌∷◌, ◌++◌, arith, length,
  take, drop, nat_eq, append-nil, take_add, take_all, length-take,
}
use rudp_agent_stack.Bytes.{Bytes}
use rudp_agent_stack.Upload.{Write}

-- What writing at an offset makes of a file.
abbrev pub store : Bytes → Write → Bytes
store old w = take w.offset old ++ (w.data_ ++ drop (w.offset + length w.data_) old)

abbrev pub content_from : Bytes → List Write → Bytes
content_from old [] = old
content_from old (w ∷ ws) = content_from (store old w) ws

abbrev pub content : List Write → Bytes
content = content_from []

pub content_from-append :
    (old : Bytes) (ws : List Write) (w : Write)
    → content_from old (ws ++ w ∷ []) ≡ store (content_from old ws) w
content_from-append old [] w = refl
content_from-append old (v ∷ ws) w = content_from-append (store old v) ws w

-- The chunk is what the file has at the offset.
pub record IsSlice (file : Bytes) (offset : ℕ) (chunk : Bytes) : Type 0 where
  pub inside : offset + length chunk ≤ length file
  pub same : take (length chunk) (drop offset file) ≡ chunk

drop_all : (xs : Bytes) (n : ℕ) → length xs ≤ n → drop n xs ≡ []
drop_all [] zero h = refl
drop_all [] (suc n) h = refl
drop_all (x ∷ xs) zero h = absurd (omega arith)
drop_all (x ∷ xs) (suc n) h = drop_all xs n (omega arith)

pub store_next :
    (file : Bytes) (n : ℕ) (name : String) (chunk : Bytes)
    → IsSlice file n chunk
    → store (take n file) (record { filename = name; offset = n; data_ = chunk })
      ≡ take (n + length chunk) file
store_next file n name chunk h =
    let size : length (take n file) ≤ n = omega (arith, length-take n file) in
    ap₂ (λ x y. x ++ (chunk ++ y)) (take_all (take n file) n size)
      (drop_all (take n file) (n + length chunk) (omega arith))
    ∙ ap (λ y. take n file ++ y) (append-nil chunk ∙ sym h.same)
    ∙ sym (take_add file n (length chunk))
