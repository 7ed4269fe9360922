-- ===== src/Agent/Paths/Sandbox.antt =====
-- The sandbox: which paths `validate_path` lets through.
use rudp_agent_stack.Base.{
  String, ◌≡◌, refl, ◌∙◌, Bool, true, false, List, [], ◌∷◌, ◌++◌, ok, inl, inr, Bool-cases,
  string_eq, All, All-append, arith, subst, if◌then◌else◌,
}
use mathlib.Core.List.{reverse, reverse-cons}
use rudp_agent_stack.Agent.Text.{is_empty, starts_with, split}
use rudp_agent_stack.Agent.Paths.{
  FilePath, same_path_iff, visit, normalize, abspath_join, commonpath, under, validate_path,
}

-- A component that names a directory or a file.
abbrev pub IsName : String → Type 0
IsName c = (is_empty c ≡ false) × (string_eq.beq c "." ≡ false) × (string_eq.beq c ".." ≡ false)

commonpath-root :
    (root p : FilePath) → commonpath root p ≡ root → (rest : FilePath) × (p ≡ root ++ rest)
unfolding commonpath
commonpath-root [] p h = (p, refl)
commonpath-root (c ∷ root) [] h = absurd (ground arith)
commonpath-root (c ∷ root) (d ∷ p) h = elim (Bool-cases (string_eq.beq c d)) [
  | inl same ↦
      let deeper = commonpath-root root p (ground arith) in
      (deeper.0, ground (arith, deeper.1, string_eq.beq_iff c d))
  | inr other ↦ absurd (ground arith)
]

visit-IsName : (c : String) (seen : List String) → All IsName seen → All IsName (visit c seen)
visit-IsName c [] h = ground arith
visit-IsName c (d ∷ seen) h = ground arith

normalize-IsName : (parts seen : List String) → All IsName seen → All IsName (normalize parts seen)
unfolding normalize
normalize-IsName [] seen h = h
normalize-IsName (c ∷ parts) seen h = normalize-IsName parts (visit c seen) (visit-IsName c seen h)

All-reverse : (p : List String) → All IsName p → All IsName (reverse p)
All-reverse [] h = tt
All-reverse (c ∷ p) h =
    rw reverse-cons (All-append IsName (reverse p) (c ∷ []) (All-reverse p h.1) (h.0, tt))

All-append_right : (p q : List String) → All IsName (p ++ q) → All IsName q
All-append_right [] q h = h
All-append_right (c ∷ p) q h = All-append_right p q h.1

abspath_join-IsName :
    (root : FilePath) (filename : String)
    → All IsName root
    → All IsName (abspath_join root filename)
unfolding abspath_join
abspath_join-IsName root filename h =
    All-reverse _ (normalize-IsName (split b'/' filename) _ (start (starts_with "/" filename)))
  where
    start : (b : Bool) → All IsName (if b then [] else reverse root)
    start true = tt
    start false = All-reverse root h

-- A path that is let through lies in the root: it is the root with names behind it, none of which is
-- empty, "." or "..".
pub validate_path-ok :
    (root : FilePath) (filename : String) (p : FilePath)
    → All IsName root
    → validate_path root filename ≡ ok p
    → (rest : FilePath) × (p ≡ root ++ rest) × All IsName rest
unfolding validate_path
validate_path-ok root filename p names h =
    elim (Bool-cases (under root (abspath_join root filename))) [
      | inr outside ↦ absurd (ground arith)
      | inl inside ↦
          let e : abspath_join root filename ≡ p = ground arith in
          let below = commonpath-root root p (
            (same_path_iff (commonpath root p) root).0
              (subst (λ q. under root q ≡ true) e inside)) in
          (
            below.0,
            below.1,
            All-append_right root below.0
                (subst (All IsName) (e ∙ below.1) (abspath_join-IsName root filename names)),
          )
    ]
