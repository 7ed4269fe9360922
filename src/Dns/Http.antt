-- ===== src/Dns/Http.antt =====
-- common/http_packet.py: the HTTP texts of a DNS query and of its answer.
pub mod Requests
pub mod Answers
use Prim.Native.Char.{Char, code}
use Prim.Native.String
use rudp_agent_stack.Base.{
  ℕ, zero, suc, ◌+◌, String, Bool, true, false, ◌&&◌, Option, none, some, List, [], ◌∷◌, ◌==◌,
  if◌then◌else◌, string_eq,
}
use rudp_agent_stack.Agent.Text.{is_empty, starts_with, split, decimal}
use rudp_agent_stack.Agent.Values.{Value}

-- json.dumps and json.loads on texts; none is for a JSONDecodeError.
pub record JsonText : Type 0 where
  pub dumps : Value → String
  pub loads : String → Option Value

infixr 65 ◌<+>◌
unfoldable pub ◌<+>◌ : String → String → String
String.[] <+> t = t
(String.◌∷◌ c s) <+> t = String.◌∷◌ c (s <+> t)

-- len(s)
unfoldable pub len : String → ℕ
len String.[] = 0
len (String.◌∷◌ c s) = suc (len s)

unfoldable pub build_doh_request : String → String → ℕ → String
unfolding ◌<+>◌
build_doh_request domain_name host port =
    "GET /dns-query?name="
    <+> domain_name
    <+> " HTTP/1.1\r\nHost: "
    <+> host
    <+> ":"
    <+> decimal port
    <+> "\r\nAccept: application/json\r\n\r\n"

-- raw_data.split("\r\n")[0]
unfoldable pub first_line : String → String
first_line String.[] = String.[]
first_line (String.◌∷◌ c s) =
    let rest = first_line s in
    if starts_with "\r\n" (String.◌∷◌ c s) then String.[] else String.◌∷◌ c rest

-- The first and the second of some texts. Where the code asks for them they are there.
abbrev pub first : List String → String
first [] = ""
first (s ∷ rest) = s

abbrev pub second : List String → String
second [] = ""
second (s ∷ rest) = first rest

abbrev pub name_in : String → Option String
name_in url =
    if starts_with "/dns-query?name=" url
    then some (first (split b' ' (second (split b'=' url))))
    else none

abbrev pub name_of : List String → Option String
name_of (method ∷ (url ∷ rest)) = if string_eq.beq method "GET" then name_in url else none
name_of _ = none

unfoldable pub parse_request : String → Option String
parse_request raw_data = name_of (split b' ' (first_line raw_data))

abbrev pub status_text : ℕ → String
status_text status_code =
    if status_code == 404 then "Not Found" else if status_code == 200 then "OK" else "Error"

unfoldable pub build_json_response : JsonText → ℕ → Value → String
unfolding ◌<+>◌
build_json_response json status_code data_ =
    let body_str = json.dumps data_ in
    "HTTP/1.1 "
    <+> decimal status_code
    <+> " "
    <+> status_text status_code
    <+> "\r\nContent-Type: application/json\r\nContent-Length: "
    <+> decimal (len body_str)
    <+> "\r\n\r\n"
    <+> body_str

unfoldable pub drop_chars : ℕ → String → String
drop_chars zero s = s
drop_chars (suc n) String.[] = String.[]
drop_chars (suc n) (String.◌∷◌ c s) = drop_chars n s

-- What stands behind the first blank line, none without one.
unfoldable pub body_of : String → Option String
body_of String.[] = none
body_of (String.◌∷◌ c s) =
    let rest = body_of s in
    if starts_with "\r\n\r\n" (String.◌∷◌ c s) then some (drop_chars 3 s) else rest

abbrev loads_body : JsonText → Option String → Option Value
loads_body json none = none
loads_body json (some body) = json.loads body

unfoldable pub parse_response : JsonText → String → Option Value
parse_response json raw_data = loads_body json (body_of raw_data)
