-- ===== src/Agent/Tools.antt =====
-- server/agent/tool_dispatcher.py: the tools that the steps of a plan run.
use rudp_agent_stack.Base.{
  String, Bool, true, false, Option, none, some, List, map, ok, err, Result, ltb, if◌then◌else◌,
  length, string_eq,
}
use rudp_agent_stack.Base.Dict.{Dict, lookup, contains}
use rudp_agent_stack.Bytes.{Bytes}
use rudp_agent_stack.Constants.{max_file_size}
use rudp_agent_stack.Agent.Text.{
  ◌<>◌, is_empty, join, splitlines, file_lines, universal_newlines, decimal,
}
use rudp_agent_stack.Agent.Values.{Value, null, text, array, object, truthy, Python}
use rudp_agent_stack.Agent.Paths.{
  Error, value_error, other_error, FilePath, validate_path, path_text,
}
use rudp_agent_stack.Agent.Action.{Action, pure, raise, raise_if, from_result, ◌>>=◌, ◌>>◌}
use rudp_agent_stack.Agent.Disk as Disk
use rudp_agent_stack.Agent.Disk.{Disk, getsize, write_file, makedirs, dirname}
use rudp_agent_stack.Agent.Planner.{Entry, plain, found, generator, the_plan, Context}
use rudp_agent_stack.Agent.Loops.{
  Content, str, bytes, neither, Lines, lines, chunks, read_chunks, concat, characters, search_from,
  filter_from, match_lines, texts,
}

-- validate_path of a value: what is no text, and is not empty, fails in os.path.join.
abbrev pub validate_value : FilePath → Value → Result Error FilePath
validate_value root (text s) = validate_path root s
validate_value root v =
    if truthy v then err (other_error "TypeError") else err (value_error "Filename cannot be empty")

abbrev pub or_key_error : Option Value → Result Error Value
or_key_error none = err (other_error "KeyError")
or_key_error (some v) = ok v

-- args[key]
abbrev pub required : String → Dict String Value → Result Error Value
required key args = or_key_error (lookup key args)

abbrev pub or_null : Option Value → Value
or_null none = null
or_null (some v) = v

-- args.get(key)
abbrev pub optional : String → Dict String Value → Value
optional key args = or_null (lookup key args)

module _ (py : Python) (root : FilePath) where
  abbrev content_bytes : Content → Result Error Bytes
  content_bytes (str s) = ok (py.encode s)
  content_bytes (bytes b) = ok b
  content_bytes neither = err (other_error "TypeError")

  -- The content is written to a temporary file in the directory of the path, which then replaces the
  -- file at the path; it is removed when that fails. The temporary file is left out: for a path that is
  -- the sandbox itself it stands for a moment in the directory above. So is what stays of it when the
  -- content is neither text nor bytes, or cannot be encoded.
  unfoldable pub atomic_write : Value → Content → Action Disk (Unit {0})
  atomic_write path content = do
    safe_path ← from_result (validate_value root path)
    makedirs py (dirname safe_path)
    b ← from_result (content_bytes content)
    write_file py safe_path b

  abbrev read_text : Bytes → Option String → Result Error Entry
  read_text b none = err (value_error (py.decode_error b))
  read_text b (some s) = ok (plain (text (universal_newlines s)))

  unfoldable pub tool_read_file : Dict String Value → Action Disk Entry
  tool_read_file args = do
    path ← from_result (required "path" args)
    safe_path ← from_result (validate_value root path)
    size ← λ d. (d, getsize py safe_path d)
    raise_if (ltb max_file_size size) (
        value_error
          ("File " <> (path_text safe_path <> " too large for READ_FILE. Use Streaming.")))
    b ← λ d. (d, Disk.read_file py safe_path d)
    from_result (read_text b (py.decode b))

  -- The generator opens the file when it is first asked for a line.
  unfoldable pub tool_stream_read : Dict String Value → Action Disk Entry
  tool_stream_read args = do
    path ← from_result (required "path" args)
    safe_path ← from_result (validate_value root path)
    pure (generator safe_path (truthy (optional "binary" args)))

  abbrev file_content : Bool → Bytes → Lines
  file_content true b = chunks (read_chunks (length b) b)
  file_content false b = lines (file_lines (universal_newlines (py.decode_replace b)))

  -- `input_data.splitlines() if isinstance(input_data, str) else input_data`, then its iteration. No
  -- tool leaves another iterable value in a context.
  unfoldable pub iterate : Entry → Action Disk Lines
  iterate (plain (text s)) = pure (lines (splitlines s))
  iterate (plain v) = raise (other_error "TypeError")
  iterate (found ls) = pure (lines ls)
  iterate (generator p binary) = do
    b ← λ d. (d, Disk.read_file py p d)
    pure (file_content binary b)
  iterate the_plan = raise (other_error "TypeError")

  unfoldable pub tool_search_lines : Dict String Value → Entry → Action Disk Entry
  tool_search_lines args input_data = do
    pattern_ ← from_result (required "pattern" args)
    ls ← iterate input_data
    results ← from_result (match_lines (λ p. search_from p 0 0) pattern_ ls)
    pure (found results)

  unfoldable pub tool_filter_lines : Dict String Value → Entry → Action Disk Entry
  tool_filter_lines args input_data = do
    pattern_ ← from_result (required "pattern" args)
    ls ← iterate input_data
    results ← from_result (match_lines filter_from pattern_ ls)
    pure (found results)

  abbrev hashed : Lines → Bytes
  hashed (lines ls) = concat (map py.encode ls)
  hashed (chunks cs) = concat cs

  -- A text is hashed whole: its lines are taken with their ends.
  unfoldable pub tool_hash_sha256 : Entry → Action Disk Entry
  tool_hash_sha256 (plain (text s)) = pure (plain (text (py.sha256 (py.encode s))))
  tool_hash_sha256 input_data = do
    ls ← iterate input_data
    pure (plain (text (py.sha256 (hashed ls))))

  abbrev written : Entry → Content
  written (plain (text s)) = str s
  written (found ls) = str (join "\n" ls)
  written _ = neither

  unfoldable pub tool_write_file : Dict String Value → Entry → Action Disk Entry
  tool_write_file args input_data = do
    path ← from_result (required "path" args)
    atomic_write path (written input_data)
    pure (plain (text "SUCCESS"))

  abbrev or_none : Option Entry → Entry
  or_none none = plain null
  or_none (some e) = e

  -- An empty content is the empty text, and a list or an object is written as JSON.
  abbrev dumped : Entry → Content
  dumped (plain null) = str ""
  dumped (plain (text s)) = str s
  dumped (plain (array vs)) = str (py.dumps_indented (array vs))
  dumped (plain (object vs)) = str (py.dumps_indented (object vs))
  dumped (found ls) = str (py.dumps_indented (array (texts ls)))
  dumped _ = neither

  abbrev looked_up : Value → Context → Entry → Entry
  looked_up (text key) context (plain null) =
      if is_empty key then plain null else or_none (lookup key context)
  looked_up key context input_data = input_data

  -- `asdict` is not imported in the module, so that writing a plan raises a NameError.
  abbrev artifact_content : Value → Context → Entry → Result Error Content
  artifact_content (text key) context input_data =
      if string_eq.beq key "__PLAN_JSON__"
      then if contains "__plan__" context then err (other_error "NameError") else ok (str "{}")
      else ok (dumped (looked_up (text key) context input_data))
  artifact_content key context input_data = ok (dumped input_data)

  unfoldable pub tool_write_artifact : Dict String Value → Entry → Context → Action Disk Entry
  tool_write_artifact args input_data context = do
    path ← from_result (required "path" args)
    content ← from_result (artifact_content (optional "content_key" args) context input_data)
    atomic_write path content
    pure (plain path)

  abbrev summary : List String → String
  summary ls = "Search Found " <> (decimal (length ls) <> (" matches:\n" <> join "\n" ls))

  abbrev pub entry_text : Entry → String
  entry_text (plain (text s)) = s
  entry_text (plain v) = py.repr v
  entry_text (found ls) = py.repr (array (texts ls))
  entry_text (generator p binary) = py.object_text "generator"
  entry_text the_plan = py.object_text "Plan"

  abbrev summarised : Entry → Result Error Value
  summarised (found ls) = ok (text (summary ls))
  summarised (plain (text s)) = ok (text (summary (characters s)))
  summarised _ = err (other_error "TypeError")

  abbrev report : Value → Value → Entry → Result Error Value
  report (text fmt) msg input_data =
      if string_eq.beq fmt "action_completion"
      then ok (if truthy msg then msg else text "Action Completed")
      else if string_eq.beq fmt "search_summary"
      then summarised input_data
      else ok (text (entry_text input_data))
  report fmt msg input_data = ok (text (entry_text input_data))

  unfoldable pub tool_build_report : Dict String Value → Entry → Action Disk Entry
  tool_build_report args input_data = do
    v ← from_result (report (optional "format" args) (optional "msg" args) input_data)
    pure (plain v)
