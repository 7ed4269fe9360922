-- ===== src/Agent/Reading.antt =====
-- Tools that only read: they keep any view of the disk.
use rudp_agent_stack.Base.{refl, String, string_eq}
use rudp_agent_stack.Base.Dict.{Dict}
use rudp_agent_stack.Agent.Values.{Value, text, Python}
use rudp_agent_stack.Agent.Paths.{FilePath}
use rudp_agent_stack.Agent.Frame.{Keeps, Keeps-bind, Keeps-ask}
use rudp_agent_stack.Agent.Disk.{Disk}
use rudp_agent_stack.Agent.Planner.{Entry, plain, found, generator, the_plan}
use rudp_agent_stack.Agent.Tools.{
  iterate, tool_read_file, tool_stream_read, tool_search_lines, tool_filter_lines, tool_hash_sha256,
  tool_build_report,
}

module _ {V : Type 0} (py : Python) (root : FilePath) (view : Disk → V) where
  iterate-Keeps : (input_data : Entry) → Keeps view (iterate py root input_data)
  unfolding iterate
  iterate-Keeps (plain (text s)) = λ d. refl
  iterate-Keeps (plain v) = λ d. refl
  iterate-Keeps (found ls) = λ d. refl
  iterate-Keeps (generator p binary) = Keeps-ask view _ _ λ b d. refl
  iterate-Keeps the_plan = λ d. refl

  pub tool_read_file-Keeps : (args : Dict String Value) → Keeps view (tool_read_file py root args)
  unfolding tool_read_file
  tool_read_file-Keeps args = Keeps-ask view _ _ λ path.
      Keeps-ask view _ _
        λ p. Keeps-ask view _ _ λ size. Keeps-ask view _ _ λ _. Keeps-ask view _ _ λ b d. refl

  pub tool_stream_read-Keeps :
      (args : Dict String Value) → Keeps view (tool_stream_read py root args)
  unfolding tool_stream_read
  tool_stream_read-Keeps args = Keeps-ask view _ _ λ path. Keeps-ask view _ _ λ p d. refl

  pub tool_search_lines-Keeps :
      (args : Dict String Value) (e : Entry) → Keeps view (tool_search_lines py root args e)
  unfolding tool_search_lines
  tool_search_lines-Keeps args e =
      Keeps-ask view _ _
        λ pattern_. Keeps-bind view _ _ (iterate-Keeps e) λ ls. Keeps-ask view _ _ λ r d. refl

  pub tool_filter_lines-Keeps :
      (args : Dict String Value) (e : Entry) → Keeps view (tool_filter_lines py root args e)
  unfolding tool_filter_lines
  tool_filter_lines-Keeps args e =
      Keeps-ask view _ _
        λ pattern_. Keeps-bind view _ _ (iterate-Keeps e) λ ls. Keeps-ask view _ _ λ r d. refl

  pub tool_hash_sha256-Keeps : (e : Entry) → Keeps view (tool_hash_sha256 py root e)
  unfolding tool_hash_sha256
  tool_hash_sha256-Keeps (plain (text s)) = λ d. refl
  tool_hash_sha256-Keeps e = Keeps-bind view _ _ (iterate-Keeps e) λ ls d. refl

  pub tool_build_report-Keeps :
      (args : Dict String Value) (e : Entry) → Keeps view (tool_build_report py root args e)
  unfolding tool_build_report
  tool_build_report-Keeps args e = Keeps-ask view _ _ λ v d. refl
