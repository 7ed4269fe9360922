-- ===== src/Agent/Values.antt =====
-- The values of JSON, and what the agent takes of Python's library as it is. The numbers in a request
-- are natural numbers here: a request with another number is outside the model.
use rudp_agent_stack.Base.{ℕ, String, Bool, true, false, not, Option, if◌then◌else◌, string_eq, ltb}
use rudp_agent_stack.Bytes.{Bytes}
use rudp_agent_stack.Agent.Text.{is_empty}

mutual
  pub data Value : Type 0 where
    null : Value
    truth : Bool → Value
    int : ℕ → Value
    text : String → Value
    array : Items → Value
    object : Fields → Value

  pub data Items : Type 0 where
    end_array : Items
    item : Value → Items → Items

  pub data Fields : Type 0 where
    end_object : Fields
    field : String → Value → Fields → Fields

-- d.get(key)
unfoldable pub get : String → Fields → Value
get key end_object = null
get key (field name v rest) = if string_eq.beq name key then v else get key rest

-- key in d
unfoldable pub has : String → Fields → Bool
has key end_object = false
has key (field name v rest) = if string_eq.beq name key then true else has key rest

-- d.get(key, default)
abbrev pub get_or : String → Value → Fields → Value
get_or key default d = if has key d then get key d else default

-- bool(v)
abbrev pub truthy : Value → Bool
truthy null = false
truthy (truth b) = b
truthy (int n) = ltb 0 n
truthy (text s) = not (is_empty s)
truthy (array end_array) = false
truthy (array (item v rest)) = true
truthy (object end_object) = false
truthy (object (field name v rest)) = true

abbrev pub is_null : Value → Bool
is_null null = true
is_null _ = false

abbrev pub is_text : Value → Bool
is_text (text s) = true
is_text _ = false

-- json.loads(data.decode("utf-8")): the value, or the text of the UnicodeDecodeError or of the
-- JSONDecodeError that it raises.
pub data Loaded : Type 0 where
  loaded : Value → Loaded
  not_utf8 : String → Loaded
  not_json : String → Loaded

pub record Python : Type 0 where
  pub loads : Bytes → Loaded
  -- json.dumps(v).encode("utf-8")
  pub dumps : Value → Bytes
  -- json.dumps(v, sort_keys=True)
  pub dumps_sorted : Value → String
  -- s.encode("utf-8")
  pub encode : String → Bytes
  -- data.decode("utf-8"), none where it raises, and the text of what it raises
  pub decode : Bytes → Option String
  pub decode_error : Bytes → String
  -- data.decode("utf-8", errors="replace")
  pub decode_replace : Bytes → String
  -- hashlib.sha256(data).hexdigest()
  pub sha256 : Bytes → String
  -- s.lower()
  pub lower : String → String
  -- json.dumps(v, indent=2)
  pub dumps_indented : Value → String
  -- str(v) for a value that is no text
  pub repr : Value → String
  -- str(o) of an object by the name of its class
  pub object_text : String → String
  -- f"{member}" for a member of an enumeration of texts, by its qualified name and its value
  pub format_member : String → String → String
  -- str(e) of the OSError with a number, for a path
  pub os_error : ℕ → String → String
  -- os.path.getsize of a directory
  pub directory_size : ℕ
