-- ===== src/Dns/Resolution.antt =====
-- A query from the client to the server and back.
use rudp_agent_stack.Base.{ℕ, String, ◌≡◌, refl, false, Option, none, some, string_eq, nat_eq}
use rudp_agent_stack.Rudp.Float.{Float}
use rudp_agent_stack.Agent.Text.{is_empty}
use rudp_agent_stack.Agent.Values.{Value, null, text, get, has, Python}
use rudp_agent_stack.Dns.{DnsCache, get_ip}
use rudp_agent_stack.Dns.Http.{JsonText, build_doh_request}
use rudp_agent_stack.Dns.Http.Requests.{IsPlain, parse_request-build_doh_request}
use rudp_agent_stack.Dns.Http.Answers.{parse_response-build_json_response}
use rudp_agent_stack.Dns.Server.{
  found_answer, missing_answer, or_none, answer_text, reply, handle_message,
}
use rudp_agent_stack.Dns.Resolve.{query_bytes, resolved_ip, decoded_answer}

abbrev pub answer_value : Option String → Value
answer_value none = missing_answer
answer_value (some ip) = found_answer ip

abbrev pub address_of : Option String → Value
address_of none = null
address_of (some ip) = text ip

decoded_answer-answer_text :
    (json : JsonText) (ip : Option String)
    → json.loads (json.dumps (answer_value ip)) ≡ some (answer_value ip)
    → decoded_answer json (some (answer_text json ip)) ≡ address_of ip
unfolding get has
decoded_answer-answer_text json none h =
    rw (parse_response-build_json_response json 404 missing_answer h) refl
decoded_answer-answer_text json (some ip) h =
    rw (parse_response-build_json_response json 200 (found_answer ip) h) refl

module _ (f : Float) (py : Python) (json : JsonText) where
  open f use {F}

  handled :
      (name host : String) (port : ℕ) (now : F) (c : DnsCache f)
      → IsPlain name
      → is_empty name ≡ false
      → py.decode (query_bytes py name host port) ≡ some (build_doh_request name host port)
      → handle_message f py json (query_bytes py name host port) now c
        ≡ reply f py json (get_ip f name now c)
  unfolding handle_message
  handled name host port now c plain named decoded =
      rw (decoded, parse_request-build_doh_request name host port plain, named) refl

  -- A client resolves a plain name, not the empty one, and the texts of the query and of the answer and the
  -- JSON of the answer survive their encoding. Then it gets the address that the cache of the server has
  -- for the name at that time, and null when that has none or the empty one; and the cache is left as by a
  -- lookup of the name.
  pub resolved_ip-handle_message :
      (name host : String) (port : ℕ) (now : F) (c : DnsCache f)
      → IsPlain name
      → is_empty name ≡ false
      → py.decode (query_bytes py name host port) ≡ some (build_doh_request name host port)
      → (let ip = or_none (get_ip f name now c).1 in
          (json.loads (json.dumps (answer_value ip)) ≡ some (answer_value ip))
          × (py.decode (py.encode (answer_text json ip)) ≡ some (answer_text json ip)))
      → (let (c', sent) = handle_message f py json (query_bytes py name host port) now c in
          (resolved_ip py json sent ≡ address_of (or_none (get_ip f name now c).1))
          × (c' ≡ (get_ip f name now c).0))
  unfolding resolved_ip
  resolved_ip-handle_message name host port now c plain named decoded (loaded, answered) =
      rw (handled name host port now c plain named decoded, answered)
        (decoded_answer-answer_text json (or_none (get_ip f name now c).1) loaded, refl)
