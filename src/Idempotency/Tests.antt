-- ===== src/Idempotency/Tests.antt =====
-- A repeated request within the time to live, and after it.
use rudp_agent_stack.Base.{◌≡◌, refl, none, some, List, [], ◌∷◌, arith, string_eq}
use rudp_agent_stack.Base.Cleanup.{keys_if, remove_keys}
use rudp_agent_stack.Base.Dict.{lookup, insert, remove}
use rudp_agent_stack.Samples.{milli}
use rudp_agent_stack.Idempotency.{
  Key, key_eq, IdempotencyCache, get_response, store_response, cleanup,
}
use rudp_agent_stack.Idempotency.Replay.{
  KeepsTime, Call, get, store, clean, perform_all, data_of, live, last_stored,
  get_response-perform_all,
}

milli-KeepsTime : KeepsTime milli
milli-KeepsTime = record {
  not_fresh = λ t now entry a b. ground arith;
  stale = λ t now entry a b. ground arith;
}

abbrev key : Key
key = ("client", (7, 2))

abbrev calls : List (Call milli)
calls =
    store key (1 ∷ []) 0
    ∷ store ("other", (7, 2)) (2 ∷ []) 10
    ∷ get key 50
    ∷ clean 60
    ∷ store key (3 ∷ []) 70
    ∷ []

abbrev after : IdempotencyCache milli
after = perform_all milli calls (record { cache = [] })

program : Unit {0}
unfolding perform_all get_response store_response cleanup keys_if remove_keys lookup insert remove
program = tt

replayed : (get_response milli key 119999 after).1 ≡ some (3 ∷ [])
unfolding program
replayed = refl

expired : (get_response milli key 120070 after).1 ≡ none
unfolding program
expired = refl

get_response-perform_all_example :
    (get_response milli key 119999 after).1
    ≡ data_of milli (live milli 119999 (last_stored milli key none calls))
get_response-perform_all_example =
    get_response-perform_all milli milli-KeepsTime calls key 119999
      (refl, (refl, (refl, (refl, (refl, tt)))))
