-- ===== src/Dns/Server.antt =====
-- server/dns_server.py: the answer to a message. What the transport does with it is not part of this.
use rudp_agent_stack.Base.{String, Option, none, some, if◌then◌else◌}
use rudp_agent_stack.Bytes.{Bytes}
use rudp_agent_stack.Rudp.Float.{Float}
use rudp_agent_stack.Agent.Text.{is_empty}
use rudp_agent_stack.Agent.Values.{Value, int, text, object, field, end_object, Python}
use rudp_agent_stack.Dns.{DnsCache, get_ip}
use rudp_agent_stack.Dns.Http.{JsonText, build_json_response, parse_request}

abbrev pub found_answer : String → Value
found_answer ip = object (
    field "status" (int 200)
      (field "data" (object (field "ip" (text ip) (field "ttl" (int 300) end_object))) end_object))

abbrev pub missing_answer : Value
missing_answer = object (field "status" (int 404) (field "error" (text "Not Found") end_object))

-- The text of an address, none for the empty text.
abbrev pub or_none : Option String → Option String
or_none none = none
or_none (some ip) = if is_empty ip then none else some ip

abbrev pub answer_text : JsonText → Option String → String
answer_text json none = build_json_response json 404 missing_answer
answer_text json (some ip) = build_json_response json 200 (found_answer ip)

module _ (f : Float) (py : Python) (json : JsonText) where
  open f use {F}

  -- What is sent.
  abbrev pub reply : DnsCache f × Option String → DnsCache f × Option Bytes
  reply (c, ip) = (c, some (py.encode (answer_text json (or_none ip))))

  abbrev pub look_up : String → F → DnsCache f → DnsCache f × Option Bytes
  look_up name now c = if is_empty name then (c, none) else reply (get_ip f name now c)

  abbrev pub handle_name : Option String → F → DnsCache f → DnsCache f × Option Bytes
  handle_name none now c = (c, none)
  handle_name (some name) now c = look_up name now c

  abbrev pub handle_text : Option String → F → DnsCache f → DnsCache f × Option Bytes
  handle_text none now c = (c, none)
  handle_text (some http_request) now c = handle_name (parse_request http_request) now c

  unfoldable pub handle_message : Bytes → F → DnsCache f → DnsCache f × Option Bytes
  handle_message data_ now c = handle_text (py.decode data_) now c
