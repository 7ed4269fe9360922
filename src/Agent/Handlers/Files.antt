-- ===== src/Agent/Handlers/Files.antt =====
-- server/agent/handlers/get.py, append.py and list.py.
use Prim.Native.Nat.{Ordering}
use Prim.Native.String
use rudp_agent_stack.Base.{
  ℕ, ◌+◌, String, Bool, true, false, not, none, some, List, [], ◌∷◌, ◌++◌, ok, err, Result, ltb,
  if◌then◌else◌, length,
}
use mathlib.Core.List.{reverse}
use rudp_agent_stack.Base.Dict.{Dict}
use rudp_agent_stack.Bytes.{Bytes}
use rudp_agent_stack.Constants.{max_file_size}
use rudp_agent_stack.Rudp.Float.{Float}
use rudp_agent_stack.Agent.Text.{◌<>◌, decimal, is_empty}
use rudp_agent_stack.Agent.Values.{
  Value, int, text, array, object, Items, end_array, item, end_object, field, get, Loaded, loaded,
  not_utf8, not_json, Python,
}
use rudp_agent_stack.Agent.Paths.{
  Error, file_not_found, value_error, FilePath, validate_path, same_path,
}
use rudp_agent_stack.Agent.Action.{Action, pure, raise_if, from_result, ◌>>=◌, ◌>>◌}
use rudp_agent_stack.Agent.Disk.{
  Disk, exists, is_directory, getsize, read_file, append_file, no_such_file,
}
use rudp_agent_stack.Agent.Handlers.{
  Agent, Surroundings, Answer, answer, on_disk, as_object, decode_mixed,
}

-- not payload
abbrev pub is_missing : Bytes → Bool
is_missing [] = true
is_missing (b ∷ bs) = false

-- A value that is a text and not empty.
abbrev pub filename_of : Value → Result Error String
filename_of (text s) = if is_empty s then err (value_error "Missing 'filename'") else ok s
filename_of v = err (value_error "Missing 'filename'")

abbrev json_for_get : Loaded → Result Error Value
json_for_get (loaded v) = ok v
json_for_get (not_utf8 t) = err (value_error "Invalid payload encoding")
json_for_get (not_json t) = err (value_error "Invalid JSON payload")

abbrev name_in : FilePath → List String → List String
name_in root [] = []
name_in root (c ∷ up) = if same_path (reverse up) root then c ∷ [] else []

abbrev names_of_directories : FilePath → List FilePath → List String
names_of_directories root [] = []
names_of_directories root (p ∷ ps) = name_in root (reverse p) ++ names_of_directories root ps

abbrev names_of_files : FilePath → Dict FilePath Bytes → List String
names_of_files root [] = []
names_of_files root ((p, b) ∷ files) = name_in root (reverse p) ++ names_of_files root files

-- What LIST says of a file.
pub record FileMetadata : Type 0 where
  pub name : String
  pub size : ℕ
  pub modified : Value

abbrev before : Ordering → Bool
before Ordering.lt = true
before _ = false

-- files_metadata.sort(key=lambda x: x["name"]): stable
unfoldable pub insert_by_name : FileMetadata → List FileMetadata → List FileMetadata
insert_by_name m [] = m ∷ []
insert_by_name m (n ∷ ms) =
    let rest = insert_by_name m ms in
    if before (String.compare n.name m.name) then n ∷ rest else m ∷ (n ∷ ms)

unfoldable pub sort_by_name : List FileMetadata → List FileMetadata
sort_by_name [] = []
sort_by_name (m ∷ ms) = insert_by_name m (sort_by_name ms)

abbrev pub metadata_items : List FileMetadata → Items
metadata_items [] = end_array
metadata_items (m ∷ ms) =
    item
      (object (
        field "name" (text m.name)
          (field "size" (int m.size) (field "mtime" m.modified end_object))))
      (metadata_items ms)

module _ (f : Float) (py : Python) (root : FilePath) where
  unfoldable pub handle_get : Bytes → Action (Agent f) Answer
  handle_get payload = do
    raise_if (is_missing payload) (value_error "Missing payload")
    request_data ← from_result (json_for_get (py.loads payload))
    fields ← from_result (as_object request_data)
    filename ← from_result (filename_of (get "filename" fields))
    abs_path ← from_result (validate_path root filename)
    there ← λ s. (s, ok (exists abs_path s.disk))
    raise_if (not there) (file_not_found ("File not found: " <> filename))
    file_size ← λ s. (s, getsize py abs_path s.disk)
    raise_if (ltb max_file_size file_size) (
        value_error ("File too large: " <> (decimal file_size <> (" > " <> decimal max_file_size))))
    file_content ← λ s. (s, read_file py abs_path s.disk)
    pure (
        answer (field "filename" (text filename) (field "size" (int file_size) end_object))
          (some file_content))

  unfoldable pub handle_append : Bytes → Action (Agent f) Answer
  handle_append payload = do
    raise_if (is_missing payload) (value_error "Missing payload")
    (metadata, binary_data) ← from_result (decode_mixed py "Invalid Mixed Mode payload: " payload)
    fields ← from_result (as_object metadata)
    filename ← from_result (filename_of (get "filename" fields))
    abs_path ← from_result (validate_path root filename)
    there ← λ s. (s, ok (exists abs_path s.disk))
    raise_if (not there) (file_not_found ("File not found: " <> filename))
    current_size ← λ s. (s, getsize py abs_path s.disk)
    let new_total_size = current_size + length binary_data
    raise_if (ltb max_file_size new_total_size) (
        value_error (
          "Append would exceed max file size: "
          <> (decimal new_total_size <> (" > " <> decimal max_file_size))))
    on_disk f (append_file py abs_path binary_data)
    final_size ← λ s. (s, getsize py abs_path s.disk)
    pure (
        answer (field "filename" (text filename) (field "new_size" (int final_size) end_object))
          none)

  -- os.listdir of the root: names of files and of directories, in an order of its own.
  unfoldable pub list_sandbox : Disk → Result Error (List String)
  list_sandbox d =
      if is_directory root d
      then ok (names_of_files root d.files ++ names_of_directories root d.directories)
      else err (no_such_file py root)

  abbrev metadata_of : (FilePath → Value) → String → Result Error ℕ → List FileMetadata
  metadata_of mtime name (ok size) =
      record { name = name; size = size; modified = mtime (root ++ name ∷ []) } ∷ []
  metadata_of mtime name (err e) = []

  -- The loop over the names; a file that has gone is left out.
  unfoldable pub collect : (FilePath → Value) → Disk → List String → List FileMetadata
  collect mtime d [] = []
  collect mtime d (name ∷ names) =
      metadata_of mtime name (getsize py (root ++ name ∷ []) d) ++ collect mtime d names

  unfoldable pub handle_list : Surroundings f → Action (Agent f) Answer
  handle_list now = do
    filenames ← λ s. (s, list_sandbox s.disk)
    files ← λ s. (s, ok (sort_by_name (collect now.mtime s.disk filenames)))
    pure (answer (field "files" (array (metadata_items files)) end_object) none)
