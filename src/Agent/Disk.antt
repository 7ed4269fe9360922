-- ===== src/Agent/Disk.antt =====
-- The file system under the agent, as far as its calls of `os` and `open` see it: the contents of the
-- files and the directories. Times, permissions and a full disk are left out.
use rudp_agent_stack.Base.{
  ℕ, String, Bool, true, false, ◌||◌, Option, none, some, List, [], ◌∷◌, ◌++◌, ok, err, Result,
  if◌then◌else◌, length, drop, zero, suc,
}
use mathlib.Core.List.{reverse}
use rudp_agent_stack.Base.Dict.{Dict, lookup, insert, contains}
use rudp_agent_stack.Base.Cleanup.{listed}
use rudp_agent_stack.Bytes.{Bytes}
use rudp_agent_stack.Agent.Values.{Python}
use rudp_agent_stack.Agent.Paths.{
  Error, file_not_found, other_error, FilePath, path_eq, path_text, tail,
}

pub record Disk : Type 0 where
  pub files : Dict FilePath Bytes
  pub directories : List FilePath

abbrev pub is_directory : FilePath → Disk → Bool
is_directory p d = listed p d.directories

-- os.path.exists(p)
abbrev pub exists : FilePath → Disk → Bool
exists p d = contains p d.files || is_directory p d

-- os.path.dirname(p)
abbrev pub dirname : FilePath → FilePath
dirname p = reverse (tail (reverse p))

abbrev write_over : ℕ → Bytes → Bytes → Bytes
write_over zero new old = new ++ drop (length new) old
write_over (suc n) new [] = 0 ∷ write_over n new []
write_over (suc n) new (b ∷ old) = b ∷ write_over n new old

-- The bytes of a file after `f.seek(offset)` and `f.write(new)`; a gap is filled with zeros.
abbrev pub overwrite : ℕ → Bytes → Bytes → Bytes
overwrite offset new old = write_over offset new old

module _ (py : Python) where
  abbrev pub no_such_file : FilePath → Error
  no_such_file p = file_not_found (py.os_error 2 (path_text p))

  abbrev size_of : FilePath → Bool → Option Bytes → Result Error ℕ
  size_of p dir (some content) = ok (length content)
  size_of p true none = ok py.directory_size
  size_of p false none = err (no_such_file p)

  -- os.path.getsize(p)
  unfoldable pub getsize : FilePath → Disk → Result Error ℕ
  getsize p d = size_of p (is_directory p d) (lookup p d.files)

  abbrev content_of : FilePath → Bool → Option Bytes → Result Error Bytes
  content_of p dir (some content) = ok content
  content_of p true none = err (other_error "IsADirectoryError")
  content_of p false none = err (no_such_file p)

  -- open(p, "rb").read()
  unfoldable pub read_file : FilePath → Disk → Result Error Bytes
  read_file p d = content_of p (is_directory p d) (lookup p d.files)

  -- with open(p, "wb") as f: f.write(content); also os.replace of a finished file
  unfoldable pub write_file : FilePath → Bytes → Disk → Disk × Result Error (Unit {0})
  write_file p content d =
      if is_directory p d
      then (d, err (other_error "IsADirectoryError"))
      else if is_directory (dirname p) d
      then (record d { files = insert p content d.files }, ok tt)
      else (d, err (no_such_file p))

  abbrev old_content : Option Bytes → Bytes
  old_content none = []
  old_content (some content) = content

  -- with open(p, "ab") as f: f.write(more)
  unfoldable pub append_file : FilePath → Bytes → Disk → Disk × Result Error (Unit {0})
  unfolding write_file
  append_file p more d = write_file p (old_content (lookup p d.files) ++ more) d

  abbrev pub patch :
      FilePath → ℕ → Bytes → Result Error Bytes → Disk → Disk × Result Error (Unit {0})
  patch p offset new (err e) d = (d, err e)
  patch p offset new (ok old) d =
      (record d { files = insert p (overwrite offset new old) d.files }, ok tt)

  -- with open(p, "r+b") as f: f.seek(offset); f.write(new)
  unfoldable pub write_at : FilePath → ℕ → Bytes → Disk → Disk × Result Error (Unit {0})
  unfolding read_file
  write_at p offset new d = patch p offset new (read_file p d) d

  -- The directories on the way down `rest` from `base`, the first missing one being made first.
  unfoldable pub make_from : FilePath → List String → Disk → Disk × Result Error (Unit {0})
  make_from base [] d = (d, ok tt)
  make_from base (c ∷ rest) d =
      let p = base ++ c ∷ [] in
      if contains p d.files
      then (d, err (other_error "FileExistsError"))
      else make_from p rest
          (if is_directory p d then d else record d { directories = p ∷ d.directories })

  -- os.makedirs(p, exist_ok=True)
  unfoldable pub makedirs : FilePath → Disk → Disk × Result Error (Unit {0})
  unfolding make_from
  makedirs p d = make_from [] p d
