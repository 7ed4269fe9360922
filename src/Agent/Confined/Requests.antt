-- ===== src/Agent/Confined/Requests.antt =====
-- What the requests to the server leave alone.
use rudp_agent_stack.Base.{
  ◌≡◌, refl, ◌∙◌, String, Option, none, some, List, [], ◌∷◌, ok, err, Result, ◌==◌, inl, inr,
  Bool-cases, length, take, drop, All, string_eq,
}
use rudp_agent_stack.Bytes.{Bytes}
use rudp_agent_stack.Constants.{header_size}
use rudp_agent_stack.Exceptions.{Py}
use rudp_agent_stack.Rudp.Float.{Float}
use rudp_agent_stack.Idempotency.{key_eq, get_response, store_response}
use rudp_agent_stack.Envelope.{AppHeader, decode_header}
use rudp_agent_stack.Agent.Values.{Python}
use rudp_agent_stack.Agent.Paths.{Error, FilePath}
use rudp_agent_stack.Agent.Handlers.{Agent, Surroundings}
use rudp_agent_stack.Agent.Dispatcher.{dispatch}
use rudp_agent_stack.Agent.Server.{store, run, replay_or_run, process_decoded, process_request}
use rudp_agent_stack.Agent.Confined.Handlers.{Spares}
use rudp_agent_stack.Agent.Confined.Dispatch.{dispatch-Keeps}

module _ (f : Float) (py : Python) (root : FilePath) where
  -- A request of a client, with its surroundings.
  pub record Request : Type 0 where
    pub now : Surroundings f
    pub client_id : String
    pub data_ : Bytes

  pub process_all : List Request → Agent f → Agent f
  process_all [] s = s
  process_all (r ∷ rest) s =
      process_all rest (process_request f py root r.now r.client_id r.data_ s).0

-- What holds of a client and of the header of its request, if there is one.
abbrev pub Concerns : (String → AppHeader → Type 0) → Py AppHeader → String → Type 0
Concerns P (ok header) id = P id header
Concerns P (err e) id = Unit

module _ (f : Float) (py : Python) (root : FilePath) {X : Type 0} (view : Agent f → X)
    (spares : Spares f py root view)
    -- Clients whose own answers the view does not show.
    (other : String → AppHeader → Type 0)
    (stored_other : (s : Agent f) (id : String) (header : AppHeader) (bs : Bytes) (t : f.F)
      → other id header
      → view (record s {
        idempotency_cache =
            store_response f (id, (header.request_id, header.opcode)) bs t s.idempotency_cache;
      })
        ≡ view s)
    (looked_up_other : (s : Agent f) (id : String) (header : AppHeader) (t : f.F)
      → other id header
      → view (record s {
        idempotency_cache =
            (get_response f (id, (header.request_id, header.opcode)) t s.idempotency_cache).0;
      })
        ≡ view s) where
  store-view :
      (now : Surroundings f) (id : String) (header : AppHeader) (r : Agent f × Result Error Bytes)
      → other id header
      → view (store f py root now id header r).0 ≡ view r.0
  store-view now id header (s, ok bs) h = stored_other s id header bs now.cached_at h
  store-view now id header (s, err e) h = refl

  run-view :
      (now : Surroundings f) (id : String) (header : AppHeader) (payload : Bytes) (s : Agent f)
      → other id header
      → view (run f py root now id header payload s).0 ≡ view s
  run-view now id header payload s h =
      store-view now id header (dispatch f py root now header payload none s) h
      ∙ dispatch-Keeps f py root view spares now header payload s

  replay_or_run-view :
      (now : Surroundings f) (id : String) (header : AppHeader) (payload : Bytes) (s : Agent f)
      (o : Option Bytes)
      → other id header
      → view (replay_or_run f py root now id header payload s o).0 ≡ view s
  replay_or_run-view now id header payload s none h = run-view now id header payload s h
  replay_or_run-view now id header payload s (some []) h = run-view now id header payload s h
  replay_or_run-view now id header payload s (some (b ∷ bs)) h = refl

  process_decoded-view :
      (now : Surroundings f) (id : String) (payload : Bytes) (r : Py AppHeader) (s : Agent f)
      → Concerns other r id
      → view (process_decoded f py root now id payload r s).0 ≡ view s
  process_decoded-view now id payload (err e) s h = refl
  process_decoded-view now id payload (ok header) s h =
      elim (Bool-cases (length payload == header.payload_len)) [
        | inr wrong ↦ rw wrong refl
        | inl right ↦
            let found =
              get_response f (id, (header.request_id, header.opcode)) now.looked_up_at
                s.idempotency_cache in
            rw right (
              replay_or_run-view now id header payload (record s { idempotency_cache = found.0 })
                found.1 h
              ∙ looked_up_other s id header now.looked_up_at h)
      ]

  pub process_request-view :
      (now : Surroundings f) (id : String) (data_ : Bytes) (s : Agent f)
      → Concerns other (decode_header (take header_size data_)) id
      → view (process_request f py root now id data_ s).0 ≡ view s
  unfolding process_request
  process_request-view now id [] s h = refl
  process_request-view now id (b ∷ bs) s h =
      process_decoded-view now id (drop header_size (b ∷ bs))
        (decode_header (take header_size (b ∷ bs))) s h

  pub process_all-view :
      (rs : List (Request f py root)) (s : Agent f)
      → All (λ r. Concerns other (decode_header (take header_size r.data_)) r.client_id) rs
      → view (process_all f py root rs s) ≡ view s
  unfolding process_all
  process_all-view [] s h = refl
  process_all-view (r ∷ rest) s h =
      process_all-view rest _ h.1 ∙ process_request-view r.now r.client_id r.data_ s h.0
