-- ===== src/Agent/Writing.antt =====
-- What `_atomic_write` leaves on the disk.
use rudp_agent_stack.Base.{
  ◌≡◌, refl, sym, ap, ◌∙◌, String, List, [], ◌∷◌, ◌++◌, ok, arith, Result, Bool-cases, string_eq,
  inl, inr,
}
use rudp_agent_stack.Base.Dict.{insert, contains}
use rudp_agent_stack.Bytes.{Bytes}
use rudp_agent_stack.Agent.Values.{text, Python}
use rudp_agent_stack.Agent.Paths.{FilePath, path_eq, validate_path}
use rudp_agent_stack.Agent.Action.{◌>>=◌}
use rudp_agent_stack.Agent.Disk.{Disk, write_file, makedirs, make_from, dirname, is_directory}
use rudp_agent_stack.Agent.Frame.{>>=-eq-ok}
use rudp_agent_stack.Agent.Loops.{str}
use rudp_agent_stack.Agent.Tools.{atomic_write}

module _ (py : Python) where
  make_from-files :
      (base : FilePath) (rest : List String) (d : Disk)
      → (make_from py base rest d).0.files ≡ d.files
  unfolding make_from
  make_from-files base [] d = refl
  make_from-files base (c ∷ rest) d =
      let p = base ++ c ∷ [] in
      elim (Bool-cases (contains p d.files)) [
        | inl taken ↦ rw taken refl
        | inr free ↦ rw free (elim (Bool-cases (is_directory p d)) [
          | inl there ↦ rw there (make_from-files p rest d)
          | inr new ↦ rw new (make_from-files p rest _)
        ])
      ]

  makedirs-files : (p : FilePath) (d : Disk) → (makedirs py p d).0.files ≡ d.files
  unfolding makedirs
  makedirs-files p d = make_from-files [] p d

  write_file-files :
      (p : FilePath) (b : Bytes) (d d' : Disk)
      → write_file py p b d ≡ (d', ok tt)
      → d'.files ≡ insert p b d.files
  unfolding write_file
  write_file-files p b d d' h = elim (Bool-cases (is_directory p d)) [
    | inl dir ↦ absurd (ground (arith, ap (λ r. r.1) (rw dir at h)))
    | inr free ↦ elim (Bool-cases (is_directory (dirname p) d)) [
      | inl there ↦ sym (ap (λ r. r.0.files) (rw (free, there) at h))
      | inr lost ↦ absurd (ground (arith, ap (λ r. r.1) (rw (free, lost) at h)))
    ]
  ]

  -- A text that was written stands in the file of a valid path, and all other files are as before.
  pub atomic_write-files :
      (root : FilePath) (out s : String) (d d' : Disk)
      → atomic_write py root (text out) (str s) d ≡ (d', ok tt)
      → (path : FilePath) × (validate_path root out ≡ ok path)
        × (d'.files ≡ insert path (py.encode s) d.files)
  unfolding atomic_write
  atomic_write-files root out s d d' h =
      let valid = >>=-eq-ok _ _ d d' tt h in
      let path : FilePath = valid.1 in
      let made = >>=-eq-ok (makedirs py (dirname path)) _ valid.0 d' tt valid.3 in
      (
        path,
        ap (λ r. r.1) valid.2,
        write_file-files path (py.encode s) made.0 d' (unfold ◌>>=◌ in made.3)
            ∙ ap (insert path (py.encode s)) (
                ap (λ r. r.0.files) (sym made.2)
                ∙ makedirs-files (dirname path) valid.0
                ∙ ap (λ (r : Disk × Result _ FilePath). r.0.files) (sym valid.2)),
      )
