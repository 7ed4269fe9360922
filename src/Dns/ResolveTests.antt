-- ===== src/Dns/ResolveTests.antt =====
-- A query for the record that each server starts with, over a toy encoding of the two texts.
use rudp_agent_stack.Base.{
  ◌≡◌, refl, String, Option, none, some, [], ◌∷◌, ◌==◌, string_eq, nat_eq, if◌then◌else◌,
}
use rudp_agent_stack.Base.Dict.{lookup, insert, remove}
use rudp_agent_stack.Bytes.{Bytes}
use rudp_agent_stack.Samples.{milli}
use rudp_agent_stack.Agent.Text.{starts_with, split, digits_from, decimal}
use rudp_agent_stack.Agent.Values.{text, Python, get, has}
use rudp_agent_stack.Agent.Toy.{toy}
use rudp_agent_stack.Dns.{set, new_cache, get_ip}
use rudp_agent_stack.Dns.Http.{
  JsonText, ◌<+>◌, len, build_doh_request, build_json_response, parse_request, first_line, body_of,
  drop_chars, parse_response,
}
use rudp_agent_stack.Dns.Http.Requests.{IsPlain, lacks-Lacks}
use rudp_agent_stack.Dns.Server.{found_answer, answer_text, handle_message}
use rudp_agent_stack.Dns.Resolve.{query_bytes, resolved_ip}
use rudp_agent_stack.Dns.Resolution.{resolved_ip-handle_message}

program : Unit {0}
unfolding ◌<+>◌ len build_doh_request build_json_response parse_request first_line body_of
    drop_chars parse_response handle_message query_bytes resolved_ip set new_cache get_ip lookup
    insert remove starts_with split digits_from decimal get has
program = tt

abbrev json : JsonText
json = record { dumps = λ v. "{}"; loads = λ s. some (found_answer "127.0.0.1") }

abbrev query : String
query = build_doh_request "agent.local" "127.0.0.1" 8053

abbrev answer : String
answer = answer_text json (some "127.0.0.1")

abbrev first_byte : Bytes → Option String
first_byte [] = none
first_byte (b ∷ rest) = if b == 1 then some query else some answer

abbrev py : Python
py = record toy {
  encode = λ s. if string_eq.beq s query then 1 ∷ [] else 2 ∷ [];
  decode = first_byte;
}

parsed : parse_request query ≡ some "agent.local"
unfolding program
parsed = refl

-- A name is cut at an equals sign.
cut : parse_request (build_doh_request "a=b" "127.0.0.1" 8053) ≡ some "a"
unfolding program
cut = refl

response :
    answer ≡ "HTTP/1.1 200 OK\r\nContent-Type: application/json\r\nContent-Length: 2\r\n\r\n{}"
unfolding program
response = refl

plain : IsPlain "agent.local"
plain = record {
  no_blank = lacks-Lacks b' ' "agent.local" refl;
  no_equals = lacks-Lacks b'=' "agent.local" refl;
  no_return = lacks-Lacks b'\r' "agent.local" refl;
}

decoded : py.decode (query_bytes py "agent.local" "127.0.0.1" 8053) ≡ some query
unfolding program
decoded = refl

resolved_ip-handle_message_example :
    let (c', sent) =
      handle_message milli py json
        (query_bytes py "agent.local" "127.0.0.1" 8053)
        5
        (new_cache milli 0) in
    (resolved_ip py json sent ≡ text "127.0.0.1")
    × (c' ≡ (get_ip milli "agent.local" 5 (new_cache milli 0)).0)
unfolding program
resolved_ip-handle_message_example =
    resolved_ip-handle_message milli py json "agent.local" "127.0.0.1" 8053 5 (new_cache milli 0)
      plain refl decoded (refl, refl)
