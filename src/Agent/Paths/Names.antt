-- ===== src/Agent/Paths/Names.antt =====
-- Relative names: a name of plain components is let through, and stands where it says.
use Prim.Native.Char.{Char, code}
use Prim.Native.String.append as Append
use rudp_agent_stack.Base.{
  String, ◌≡◌, refl, ap, ap₂, ◌∙◌, true, false, List, [], ◌∷◌, ◌++◌, ok, ◌==◌, string_eq, All,
  arith, append_assoc,
}
use mathlib.Core.List.{reverse, reverse-cons, reverse-append, reverse-reverse}
use rudp_agent_stack.Agent.Text.{◌<>◌, is_empty, starts_with, split, join}
use rudp_agent_stack.Agent.Paths.{
  FilePath, same_path, same_path_iff, visit, normalize, abspath_join, commonpath, under,
  validate_path,
}
use rudp_agent_stack.Agent.Paths.Sandbox.{IsName}

abbrev pub NoSlash : String → Type 0
NoSlash String.[] = Unit
NoSlash (String.◌∷◌ c s) = ((code c == b'/') ≡ false) × NoSlash s

split-one : (s : String) → NoSlash s → split b'/' s ≡ s ∷ []
unfolding split
split-one String.[] h = refl
split-one (String.◌∷◌ c s) h = rw (h.0, split-one s h.1) refl

split-cons :
    (c : Char) (s t : String) {rest : List String}
    → (code c == b'/') ≡ false
    → split b'/' (s <> t) ≡ s ∷ rest
    → split b'/' (String.◌∷◌ c (s <> t)) ≡ String.◌∷◌ c s ∷ rest
unfolding split
split-cons c s t h e = rw (h, e) refl

abbrev slash : Char
slash = "/"

pub nil-append : (t : String) → "" <> t ≡ t
nil-append t = λ i. Append.nil t i

pub cons-append : (c : Char) (s t : String) → String.◌∷◌ c s <> t ≡ String.◌∷◌ c (s <> t)
cons-append c s t = λ i. Append.cons c s t i

slash-append : (t : String) → "/" <> t ≡ String.◌∷◌ slash t
slash-append t = cons-append slash "" t ∙ ap (String.◌∷◌ slash) (nil-append t)

split-slash : (s t : String) → NoSlash s → split b'/' (s <> ("/" <> t)) ≡ s ∷ split b'/' t
split-slash String.[] t h =
    ap (split b'/') (nil-append ("/" <> t) ∙ slash-append t) ∙ unfold split in refl
split-slash (String.◌∷◌ c s) t h =
    ap (split b'/') (cons-append c s ("/" <> t))
    ∙ split-cons c s ("/" <> t) h.0 (split-slash s t h.1)

split-join :
    (c : String) (names : List String)
    → All NoSlash (c ∷ names)
    → split b'/' (join "/" (c ∷ names)) ≡ c ∷ names
unfolding join
split-join c [] h = split-one c h.0
split-join c (d ∷ names) h =
    split-slash c (join "/" (d ∷ names)) h.0 ∙ ap (◌∷◌ c) (split-join d names h.1)

-- Among plain names nothing is dropped and nothing goes up.
visit-name : (c : String) (seen : List String) → IsName c → visit c seen ≡ c ∷ seen
visit-name c seen h = ground arith

normalize-names :
    (names seen : List String) → All IsName names → normalize names seen ≡ reverse names ++ seen
unfolding normalize
normalize-names [] seen h = refl
normalize-names (c ∷ names) seen h =
    ap (normalize names) (visit-name c seen h.0)
    ∙ normalize-names names (c ∷ seen) h.1
    ∙ rw (reverse-cons, append_assoc) refl

commonpath-append : (root rest : FilePath) → commonpath root (root ++ rest) ≡ root
unfolding commonpath
commonpath-append [] rest = refl
commonpath-append (c ∷ root) rest =
    rw ((string_eq.beq_iff c c).1 refl) (ap (◌∷◌ c) (commonpath-append root rest))

same_path_self : (p : FilePath) → same_path p p ≡ true
same_path_self p = (same_path_iff p p).1 refl

relative_one : (s : String) → IsName s → NoSlash s → starts_with "/" s ≡ false
unfolding starts_with
relative_one String.[] h k = refl
relative_one (String.◌∷◌ c s) h k = ground (arith, k.0)

relative : (s t : String) → IsName s → NoSlash s → starts_with "/" (s <> t) ≡ false
relative String.[] t h k = absurd (ground arith)
relative (String.◌∷◌ c s) t h k =
    ap (starts_with "/") (cons-append c s t) ∙ unfold starts_with in ground (arith, k.0)

relative-join :
    (c : String) (names : List String)
    → IsName c
    → NoSlash c
    → starts_with "/" (join "/" (c ∷ names)) ≡ false
unfolding join
relative-join c [] h k = relative_one c h k
relative-join c (d ∷ names) h k = relative c ("/" <> join "/" (d ∷ names)) h k

pub is_empty-append : (s t : String) → is_empty s ≡ false → is_empty (s <> t) ≡ false
is_empty-append String.[] t h = absurd (ground arith)
is_empty-append (String.◌∷◌ c s) t h = ap is_empty (cons-append c s t)

not_empty-join :
    (c : String) (names : List String) → IsName c → is_empty (join "/" (c ∷ names)) ≡ false
unfolding join
not_empty-join c [] h = h.0
not_empty-join c (d ∷ names) h = is_empty-append c ("/" <> join "/" (d ∷ names)) h.0

abspath_join-join :
    (root : FilePath) (c : String) (names : List String)
    → All IsName (c ∷ names)
    → All NoSlash (c ∷ names)
    → starts_with "/" (join "/" (c ∷ names)) ≡ false
    → abspath_join root (join "/" (c ∷ names)) ≡ root ++ c ∷ names
unfolding abspath_join
abspath_join-join root c names h k r =
    rw (r, split-join c names k, normalize-names (c ∷ names) (reverse root) h)
      (reverse-append (reverse (c ∷ names)) (reverse root)
        ∙ ap₂ (λ p q. p ++ q) (reverse-reverse root) (reverse-reverse (c ∷ names)))

-- Plain names that are joined by "/" are let through, and stand below the root as they are written.
pub validate_path-join :
    (root : FilePath) (c : String) (names : List String)
    → All IsName (c ∷ names)
    → All NoSlash (c ∷ names)
    → validate_path root (join "/" (c ∷ names)) ≡ ok (root ++ c ∷ names)
unfolding validate_path
validate_path-join root c names h k =
    let there = abspath_join-join root c names h k (relative-join c names h.0 k.0) in
    let inside : under root (root ++ c ∷ names) ≡ true =
      ap (λ p. same_path p root) (commonpath-append root (c ∷ names)) ∙ same_path_self root in
    rw (not_empty-join c names h.0, there, inside) refl
