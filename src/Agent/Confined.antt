-- ===== src/Agent/Confined.antt =====
-- Nothing outside the sandbox is written: the calls on files and the tools.
pub mod Tools
pub mod Handlers
pub mod Dispatch
pub mod Requests
use rudp_agent_stack.Base.{
  ◌≡◌, refl, ◌∙◌, String, Bool, true, false, Option, none, some, List, [], ◌∷◌, ◌++◌, ok, err,
  Result, ℕ, inl, inr, Bool-cases, arith, if◌then◌else◌,
}
use rudp_agent_stack.Base.Dict.{lookup, insert, contains, lookup-insert}
use rudp_agent_stack.Bytes.{Bytes}
use rudp_agent_stack.Agent.Values.{Python}
use rudp_agent_stack.Agent.Paths.{
  Error, FilePath, path_eq, same_path, same_path_iff, under, abspath_join, validate_path,
}
use rudp_agent_stack.Agent.Disk.{
  Disk, is_directory, dirname, read_file, write_file, append_file, write_at, patch, make_from,
  makedirs,
}

-- What stands at a path.
abbrev pub file_at : FilePath → Disk → Option Bytes
file_at q d = lookup q d.files

pub validate_path-under :
    (root : FilePath) (filename : String) (p : FilePath)
    → validate_path root filename ≡ ok p
    → under root p ≡ true
unfolding validate_path
validate_path-under root filename p h =
    elim (Bool-cases (under root (abspath_join root filename))) [
      | inl inside ↦ ground arith
      | inr outside ↦ absurd (ground arith)
    ]

module _ (py : Python) (root q : FilePath) (outside : under root q ≡ false) where
  insert_below :
      (p : FilePath) (b : Bytes) (d : Disk)
      → under root p ≡ true
      → lookup q (insert p b d.files) ≡ lookup q d.files
  insert_below p b d h = ground (arith, lookup-insert p q b d.files, same_path_iff p q)

  pub file_at-write_file :
      (p : FilePath) (b : Bytes) (d : Disk)
      → under root p ≡ true
      → file_at q (write_file py p b d).0 ≡ file_at q d
  unfolding write_file
  file_at-write_file p b d h = ground (arith, insert_below p b d h)

  pub file_at-append_file :
      (p : FilePath) (b : Bytes) (d : Disk)
      → under root p ≡ true
      → file_at q (append_file py p b d).0 ≡ file_at q d
  unfolding append_file
  file_at-append_file p b d h = file_at-write_file p _ d h

  pub file_at-write_at :
      (p : FilePath) (offset : ℕ) (b : Bytes) (d : Disk)
      → under root p ≡ true
      → file_at q (write_at py p offset b d).0 ≡ file_at q d
  unfolding write_at
  file_at-write_at p offset b d h = patched (read_file py p d)
    where
      patched : (r : Result Error Bytes) → file_at q (patch py p offset b r d).0 ≡ file_at q d
      patched (err e) = refl
      patched (ok old) = insert_below p _ d h

  file_at-make_from :
      (base : FilePath) (rest : List String) (d : Disk)
      → file_at q (make_from py base rest d).0 ≡ file_at q d
  unfolding make_from
  file_at-make_from base [] d = refl
  file_at-make_from base (c ∷ rest) d =
      let p = base ++ c ∷ [] in
      elim (Bool-cases (contains p d.files)) [
        | inl taken ↦ rw taken refl
        | inr free ↦ rw free (elim (Bool-cases (is_directory p d)) [
          | inl there ↦ rw there (file_at-make_from p rest d)
          | inr new ↦ rw new (file_at-make_from p rest _)
        ])
      ]

  pub file_at-makedirs : (p : FilePath) (d : Disk) → file_at q (makedirs py p d).0 ≡ file_at q d
  unfolding makedirs
  file_at-makedirs p d = file_at-make_from [] p d
