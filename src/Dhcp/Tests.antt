-- ===== src/Dhcp/Tests.antt =====
-- A pool of two addresses, and the theorems on it at inputs that meet their hypotheses.
use rudp_agent_stack.Base.{◌≡◌, refl, true, none, List, [], ◌∷◌, ok, string_eq}
use rudp_agent_stack.Base.Dict.{lookup, insert, remove}
use rudp_agent_stack.Samples.{milli}
use rudp_agent_stack.Dhcp.{
  bound, IpManager, init, ip_to_int, int_to_ip, handle_discover, handle_request,
  cleanup_expired_leases,
}
use rudp_agent_stack.Dhcp.Leases.{IsConsistent}
use rudp_agent_stack.Dhcp.Answers.{Call, discover, request, perform_all, perform_all-IsConsistent}
use rudp_agent_stack.Dhcp.Handshake.{Holds}

program : Unit {0}
unfolding perform_all handle_discover handle_request cleanup_expired_leases lookup insert remove
program = tt

abbrev empty : IpManager milli
empty = init milli "127.0.0.2" "127.0.0.3"

abbrev calls : List (Call milli)
calls = discover "a" 1 0 0 ∷ discover "b" 2 5 5 ∷ request "a" 1 "127.0.0.2" 6 6 ∷ []

abbrev full : IpManager milli
full = perform_all milli calls empty

second_address : int_to_ip 2130706435 ≡ "127.0.0.3"
unfolding program
second_address = refl

perform_all-IsConsistent_example : IsConsistent milli full
perform_all-IsConsistent_example = perform_all-IsConsistent milli calls "127.0.0.2" "127.0.0.3"

offered_a : Holds milli "a" 1 "127.0.0.2" 6 full
unfolding program
offered_a = record {
  lease = record { ip = "127.0.0.2"; xid = 1; expires_at = 3600006; state = bound };
  found = refl;
  same_ip = refl;
  same_xid = refl;
  fresh = refl;
}

full-IsConsistent : IsConsistent milli full
full-IsConsistent = perform_all-IsConsistent milli calls "127.0.0.2" "127.0.0.3"

acked : (handle_request milli "a" 1 "127.0.0.2" 10 10 full).1 ≡ true
unfolding program
acked = refl

bounds : (ip_to_int full.start_ip ≡ ok 2130706434) × (ip_to_int full.end_ip ≡ ok 2130706435)
unfolding program ip_to_int
bounds = (refl, refl)

refused : (handle_discover milli "c" 3 10 10 full).1 ≡ ok (none, 0)
unfolding program
refused = refl
