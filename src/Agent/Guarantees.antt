-- ===== src/Agent/Guarantees.antt =====
-- What the server guarantees of its requests: the sandbox, and the answers that stay in the cache.
pub mod Replay
pub mod Shared
use rudp_agent_stack.Base.{
  ◌≡◌, refl, sym, ap, ◌∙◌, subst, String, Bool, true, false, not, Option, none, some, List, [], ◌∷◌,
  ok, err, Result, ℕ, ◌==◌, arith, inl, inr, Bool-cases, length, take, drop, All, All-imp,
  if◌then◌else◌, string_eq, nat_eq,
}
use rudp_agent_stack.Base.Dict.{
  lookup, insert, remove, lookup-insert, lookup-insert_self, lookup-remove,
}
use rudp_agent_stack.Bytes.{Bytes}
use rudp_agent_stack.Constants.{header_size}
use rudp_agent_stack.Exceptions.{Py}
use rudp_agent_stack.Rudp.Float.{Float}
use rudp_agent_stack.Idempotency.{
  Key, key_eq, same_key_iff, CachedResponse, is_fresh, found_response, get_response, store_response,
}
use rudp_agent_stack.Envelope.{AppHeader, decode_header}
use rudp_agent_stack.Agent.Values.{Python}
use rudp_agent_stack.Agent.Paths.{Error, FilePath, under}
use rudp_agent_stack.Agent.Handlers.{Agent, Surroundings}
use rudp_agent_stack.Agent.Dispatcher.{dispatch}
use rudp_agent_stack.Agent.Server.{store, run, replay_or_run, process_decoded, process_request}
use rudp_agent_stack.Agent.Confined.{file_at}
use rudp_agent_stack.Agent.Confined.Handlers.{Spares}
use rudp_agent_stack.Agent.Confined.Dispatch.{dispatch-Keeps}
use rudp_agent_stack.Agent.Confined.Requests.{Request, process_all, Concerns, process_all-view}

module _ (f : Float) (py : Python) (root : FilePath) where
  file-Spares : (q : FilePath) → under root q ≡ false → Spares f py root (λ s. file_at q s.disk)
  file-Spares q outside = record {
    files = λ s d h. h q outside;
    sessions = λ s m. refl;
    stored = λ s r o bs t. refl;
    looked_up = λ s r o t. refl;
  }

  any_request : (p : Py AppHeader) (id : String) → Concerns (λ id header. Unit {0}) p id
  any_request (ok header) id = tt
  any_request (err e) id = tt

  any_requests :
      (rs : List (Request f py root))
      → All
          (λ r.
            Concerns (λ id header. Unit {0}) (decode_header (take header_size r.data_)) r.client_id)
          rs
  any_requests [] = tt
  any_requests (r ∷ rs) =
      (any_request (decode_header (take header_size r.data_)) r.client_id, any_requests rs)

  -- Whatever clients send, valid or not and in any order, a file that lies outside the sandbox is the
  -- same after the requests as before them: none is changed, new, emptied or gone.
  pub process_all-confined :
      (rs : List (Request f py root)) (s : Agent f) (q : FilePath)
      → under root q ≡ false
      → file_at q (process_all f py root rs s).disk ≡ file_at q s.disk
  process_all-confined rs s q outside =
      process_all-view f py root (λ s. file_at q s.disk) (file-Spares q outside)
        (λ id header. Unit {0}) (λ s id header bs t h. refl) (λ s id header t h. refl) rs s
        (any_requests rs)

  abbrev pub key_of : String → AppHeader → Key
  key_of id header = (id, (header.request_id, header.opcode))

  abbrev pub answer_at : Key → Agent f → Option (CachedResponse f)
  answer_at k s = lookup k s.idempotency_cache.cache

  pub answer_at-store :
      (k j : Key) (bs : Bytes) (t : f.F) (s : Agent f)
      → key_eq.beq j k ≡ false
      → lookup k (store_response f j bs t s.idempotency_cache).cache ≡ answer_at k s
  unfolding store_response
  answer_at-store k j bs t s ne = lookup-insert j k _ s.idempotency_cache.cache ∙ rw ne refl

  answer_at-found :
      (k j : Key) (t : f.F) (o : Option (CachedResponse f)) (s : Agent f)
      → key_eq.beq j k ≡ false
      → lookup k (found_response f j t o s.idempotency_cache).0.cache ≡ answer_at k s
  answer_at-found k j t none s ne = refl
  answer_at-found k j t (some entry) s ne = elim (Bool-cases (is_fresh f t entry)) [
    | inl fresh ↦ rw fresh refl
    | inr old ↦ rw old (lookup-remove j k s.idempotency_cache.cache ∙ rw ne refl)
  ]

  pub answer_at-get :
      (k j : Key) (t : f.F) (s : Agent f)
      → key_eq.beq j k ≡ false
      → lookup k (get_response f j t s.idempotency_cache).0.cache ≡ answer_at k s
  unfolding get_response
  answer_at-get k j t s ne = answer_at-found k j t (lookup j s.idempotency_cache.cache) s ne

  -- Another client, or another request of the same one.
  abbrev pub Differs : Key → String → AppHeader → Type 0
  Differs k id header = key_eq.beq (key_of id header) k ≡ false

  pub answer-Spares :
      (k : Key)
      → ((request_id opcode : ℕ) → key_eq.beq ("default_client", (request_id, opcode)) k ≡ false)
      → Spares f py root (answer_at k)
  answer-Spares k ne = record {
    files = λ s d h. refl;
    sessions = λ s m. refl;
    stored = λ s r o bs t. answer_at-store k _ bs t s (ne r o);
    looked_up = λ s r o t. answer_at-get k _ t s (ne r o);
  }
