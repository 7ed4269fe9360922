-- ===== src/Agent/Loops.antt =====
-- server/agent/tool_dispatcher.py: what the tools are given, and their loops over lines and
-- chunks.
use rudp_agent_stack.Base.{
  ℕ, zero, suc, ◌+◌, String, List, [], ◌∷◌, ◌++◌, ok, err, Result, ltb, if◌then◌else◌, take, drop,
  string_eq,
}
use rudp_agent_stack.Bytes.{Bytes}
use rudp_agent_stack.Agent.Text.{◌<>◌, occurs, strip, decimal}
use rudp_agent_stack.Agent.Values.{Value, text, Items, end_array, item}
use rudp_agent_stack.Agent.Paths.{Error, other_error}

-- What `_atomic_write` is given.
pub data Content : Type 0 where
  str : String → Content
  bytes : Bytes → Content
  neither : Content

-- What a tool iterates over: lines, or the chunks of a binary file.
pub data Lines : Type 0 where
  lines : List String → Lines
  chunks : List Bytes → Lines

abbrev pub chunk_size : ℕ
chunk_size = 65536

-- f.read(65536) until the end, at most as often as there are bytes.
unfoldable pub read_chunks : ℕ → Bytes → List Bytes
read_chunks zero content = []
read_chunks (suc fuel) [] = []
read_chunks (suc fuel) (b ∷ content) =
    take chunk_size (b ∷ content) ∷ read_chunks fuel (drop chunk_size (b ∷ content))

abbrev pub concat : List Bytes → Bytes
concat [] = []
concat (c ∷ cs) = c ++ concat cs

abbrev pub characters : String → List String
characters String.[] = []
characters (String.◌∷◌ c s) = String.◌∷◌ c String.[] ∷ characters s

abbrev pub max_results : ℕ
max_results = 1000

-- The loop of `_tool_search_lines` from the line `i` on, with `n` results so far.
unfoldable pub search_from : String → ℕ → ℕ → List String → List String
search_from pattern_ i n [] = []
search_from pattern_ i n (line ∷ rest) =
    let hit = search_from pattern_ (i + 1) (n + 1) rest in
    let miss = search_from pattern_ (i + 1) n rest in
    if occurs pattern_ line
    then ("Line " <> (decimal (i + 1) <> (": " <> strip line)))
      ∷ (if ltb max_results (n + 1) then "... (Truncated)" ∷ [] else hit)
    else miss

-- The loop of `_tool_filter_lines`.
unfoldable pub filter_from : String → List String → List String
filter_from pattern_ [] = []
filter_from pattern_ (line ∷ rest) =
    let kept = filter_from pattern_ rest in if occurs pattern_ line then line ∷ kept else kept

-- `pattern in line` raises for what is no text; without a line nothing is tested.
abbrev pub match_lines :
    (String → List String → List String) → Value → Lines → Result Error (List String)
match_lines select v (lines []) = ok []
match_lines select (text p) (lines (l ∷ ls)) = ok (select p (l ∷ ls))
match_lines select v (lines (l ∷ ls)) = err (other_error "TypeError")
match_lines select v (chunks []) = ok []
match_lines select v (chunks (c ∷ cs)) = err (other_error "TypeError")

abbrev pub texts : List String → Items
texts [] = end_array
texts (s ∷ ss) = item (text s) (texts ss)
