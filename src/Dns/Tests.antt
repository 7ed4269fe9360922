-- ===== src/Dns/Tests.antt =====
-- A name that is set again before it expires, and one that has expired.
use rudp_agent_stack.Base.{◌≡◌, refl, none, some, List, [], ◌∷◌, arith, string_eq}
use rudp_agent_stack.Base.Dict.{lookup, insert, remove}
use rudp_agent_stack.Samples.{milli}
use rudp_agent_stack.Dns.{DnsCache, set, new_cache, get_ip}
use rudp_agent_stack.Dns.Expiry.{
  KeepsOrder, Query, get_at, set_at, answer_all, last_set, unexpired, ip_of, get_ip-answer_all,
}

milli-KeepsOrder : KeepsOrder milli
milli-KeepsOrder = λ x t now a b. ground arith

abbrev queries : List (Query milli)
queries =
    set_at "a.local" "10.0.0.1" 1 0
    ∷ get_at "a.local" 500
    ∷ set_at "b.local" "10.0.0.2" 2 600
    ∷ get_at "a.local" 1500
    ∷ set_at "a.local" "10.0.0.3" 1 1600
    ∷ []

abbrev after : DnsCache milli
after = answer_all milli queries (new_cache milli 0)

program : Unit {0}
unfolding answer_all get_ip set new_cache lookup insert remove
program = tt

seeded : (get_ip milli "agent.local" 300000 after).1 ≡ some "127.0.0.1"
unfolding program
seeded = refl

set_again : (get_ip milli "a.local" 2600 after).1 ≡ some "10.0.0.3"
unfolding program
set_again = refl

expired : (get_ip milli "b.local" 2601 after).1 ≡ none
unfolding program
expired = refl

get_ip-answer_all_example :
    (get_ip milli "a.local" 2600 after).1
    ≡ ip_of milli (
        unexpired milli 2600
          (last_set milli "a.local" none (set_at "agent.local" "127.0.0.1" 300 0 ∷ queries)))
get_ip-answer_all_example =
    get_ip-answer_all milli milli-KeepsOrder 0 queries "a.local" 2600
      (refl, (refl, (refl, (refl, (refl, tt)))))
