-- ===== src/Dns/Resolve.antt =====
-- client/dns_client.py: what a resolution sends and what it makes of the answer; none is for no answer
-- within the timeout. The transport between is left out.
use rudp_agent_stack.Base.{
  ℕ, String, Bool, false, ◌==◌, Option, none, some, if◌then◌else◌, string_eq,
}
use rudp_agent_stack.Bytes.{Bytes}
use rudp_agent_stack.Agent.Values.{
  Value, null, int, object, end_object, get, get_or, truthy, Python,
}
use rudp_agent_stack.Dns.Http.{JsonText, build_doh_request, parse_response}

unfoldable pub query_bytes : Python → String → String → ℕ → Bytes
query_bytes py hostname dns_server_ip port =
    py.encode (build_doh_request hostname dns_server_ip port)

-- data.get("status") == 200
abbrev pub is_ok : Value → Bool
is_ok (int n) = n == 200
is_ok _ = false

-- The call of `get` on what is no dictionary raises, and the name is not resolved.
abbrev pub ip_in : Value → Value
ip_in (object d) = get "ip" d
ip_in _ = null

abbrev pub address_in : Value → Value
address_in (object d) =
    if is_ok (get "status" d) then ip_in (get_or "data" (object end_object) d) else null
address_in _ = null

abbrev pub parsed_answer : Option Value → Value
parsed_answer none = null
parsed_answer (some v) = if truthy v then address_in v else null

abbrev pub decoded_answer : JsonText → Option String → Value
decoded_answer json none = null
decoded_answer json (some payload) = parsed_answer (parse_response json payload)

-- The resolved address, null where there is none.
unfoldable pub resolved_ip : Python → JsonText → Option Bytes → Value
resolved_ip py json none = null
resolved_ip py json (some payload) = decoded_answer json (py.decode payload)
