-- ===== src/Agent/Paths.antt =====
-- server/agent/validations.py: PolicyGuard, on POSIX paths. An absolute path is the list of its
-- components; symbolic links are not resolved, as in the code.
pub mod Sandbox
pub mod Names
use rudp_agent_stack.Base.{
  ℕ, String, Bool, true, false, ◌||◌, List, [], ◌∷◌, ◌≡◌, ◌↔◌, ok, err, Result, if◌then◌else◌,
  string_eq, Eq, arith, ltb,
}
use mathlib.Core.List.{reverse}
use rudp_agent_stack.Constants.{max_payload_len}
use rudp_agent_stack.Agent.Text.{◌<>◌, is_empty, starts_with, split, join, decimal}

-- What a handler raises: an OSError for a missing file, a ValueError with its text, and the rest by
-- the name of its class.
pub data Error : Type 0 where
  file_not_found : String → Error
  value_error : String → Error
  other_error : String → Error

abbrev pub FilePath : Type 0
FilePath = List String

abbrev pub same_path : FilePath → FilePath → Bool
same_path [] [] = true
same_path [] (d ∷ q) = false
same_path (c ∷ p) [] = false
same_path (c ∷ p) (d ∷ q) = if string_eq.beq c d then same_path p q else false

pub same_path_iff : (p q : FilePath) → (same_path p q ≡ true) ↔ (p ≡ q)
same_path_iff [] [] = ground arith
same_path_iff [] (d ∷ q) = ground arith
same_path_iff (c ∷ p) [] = ground arith
same_path_iff (c ∷ p) (d ∷ q) = ground (arith, string_eq.beq_iff c d, same_path_iff p q)

instance abbrev pub path_eq : Eq FilePath
path_eq = record { beq = same_path; beq_iff = same_path_iff }

abbrev pub tail : List String → List String
tail [] = []
tail (c ∷ p) = p

-- One component in os.path.normpath of an absolute path; the components so far stand backwards.
abbrev pub visit : String → List String → List String
visit c seen =
    if is_empty c || string_eq.beq c "."
    then seen
    else if string_eq.beq c ".."
    then tail seen
    else c ∷ seen

unfoldable pub normalize : List String → List String → List String
normalize [] seen = seen
normalize (c ∷ rest) seen = normalize rest (visit c seen)

-- os.path.abspath(os.path.join(root, name)): an absolute name replaces the root.
unfoldable pub abspath_join : FilePath → String → FilePath
unfolding normalize
abspath_join root name =
    reverse (normalize (split b'/' name) (if starts_with "/" name then [] else reverse root))

-- os.path.commonpath([p, q])
unfoldable pub commonpath : FilePath → FilePath → FilePath
commonpath [] q = []
commonpath (c ∷ p) [] = []
commonpath (c ∷ p) (d ∷ q) = let rest = commonpath p q in if string_eq.beq c d then c ∷ rest else []

abbrev pub under : FilePath → FilePath → Bool
under root p = same_path (commonpath root p) root

unfoldable pub validate_path : FilePath → String → Result Error FilePath
validate_path root filename =
    if is_empty filename
    then err (value_error "Filename cannot be empty")
    else (let full_path = abspath_join root filename in
        if under root full_path then ok full_path else err (value_error "Path traversal detected"))

unfoldable pub validate_payload_size : ℕ → Result Error (Unit {0})
validate_payload_size size =
    if ltb max_payload_len size
    then err (
        value_error ("Payload too large: " <> (decimal size <> (" > " <> decimal max_payload_len))))
    else ok tt

-- An absolute path as a text.
unfoldable pub path_text : FilePath → String
path_text p = "/" <> join "/" p
