-- ===== src/Agent/Guarantees/Replay.antt =====
-- A request that comes again is answered again and not executed again.
use rudp_agent_stack.Base.{
  ◌≡◌, refl, sym, ap, ◌∙◌, String, true, false, none, some, List, [], ◌∷◌, ok, err, Result, ℕ, ◌==◌,
  arith, inl, inr, Bool-cases, length, take, drop, All, string_eq,
}
use rudp_agent_stack.Base.Dict.{lookup-insert_self}
use rudp_agent_stack.Bytes.{Bytes}
use rudp_agent_stack.Constants.{header_size}
use rudp_agent_stack.Rudp.Float.{Float}
use rudp_agent_stack.Idempotency.{key_eq, get_response, store_response, idempotency_ttl}
use rudp_agent_stack.Envelope.{AppHeader, decode_header}
use rudp_agent_stack.Agent.Values.{Python}
use rudp_agent_stack.Agent.Paths.{Error, FilePath}
use rudp_agent_stack.Agent.Handlers.{Agent, Surroundings}
use rudp_agent_stack.Agent.Dispatcher.{dispatch}
use rudp_agent_stack.Agent.Server.{store, run, process_decoded, process_request}
use rudp_agent_stack.Agent.Confined.Requests.{Request, process_all, Concerns, process_all-view}
use rudp_agent_stack.Agent.Guarantees.{
  key_of, answer_at, answer_at-store, answer_at-get, Differs, answer-Spares,
}

module _ (f : Float) (py : Python) (root : FilePath) where
  open f use {F, of_nat, sub, lt}

  -- A response that is sent has been stored.
  stored-answer :
      (now : Surroundings f) (id : String) (header : AppHeader) (r : Agent f × Result Error Bytes)
      (s' : Agent f) (b : ℕ) (bs : Bytes)
      → store f py root now id header r ≡ (s', b ∷ bs)
      → answer_at f py root (key_of f py root id header) s'
        ≡ some (record { response_data = b ∷ bs; timestamp = now.cached_at })
  unfolding store_response
  stored-answer now id header (s, err e) s' b bs h = absurd (ground (arith, ap (λ p. p.1) h))
  stored-answer now id header (s, ok sent) s' b bs h =
      ap (λ p. answer_at f py root (key_of f py root id header) p.0) (sym h)
      ∙ lookup-insert_self (key_of f py root id header) _ s.idempotency_cache.cache
      ∙ ap (λ (d : Bytes). some (record { response_data = d; timestamp = now.cached_at }))
          (ap (λ p. p.1) h)

  -- What the first execution of a request leaves behind: its length was right, and its response is in
  -- the cache.
  record Executed (id : String) (header : AppHeader) (payload : Bytes) (response : Bytes) (t : F)
      (s : Agent f) : Type 0 where
    framed : (length payload == header.payload_len) ≡ true
    kept :
        answer_at f py root (key_of f py root id header) s
        ≡ some (record { response_data = response; timestamp = t })

  -- A request that is new runs.
  pub process-new :
      (now : Surroundings f) (id : String) (header : AppHeader) (payload : Bytes) (s : Agent f)
      → (length payload == header.payload_len) ≡ true
      → answer_at f py root (key_of f py root id header) s ≡ none
      → process_decoded f py root now id payload (ok header) s
        ≡ run f py root now id header payload s
  unfolding get_response
  process-new now id header payload s right fresh = rw (right, fresh) refl

  -- A request whose answer is in the cache and fresh changes nothing.
  process-again :
      (now : Surroundings f) (id : String) (header : AppHeader) (payload : Bytes) (s : Agent f)
      (b : ℕ) (bs : Bytes) (t : F)
      → Executed id header payload (b ∷ bs) t s
      → lt (sub now.looked_up_at t) (of_nat idempotency_ttl) ≡ true
      → process_decoded f py root now id payload (ok header) s ≡ (s, b ∷ bs)
  unfolding get_response
  process-again now id header payload s b bs t e fresh = rw (e.framed, e.kept, fresh) refl

  first-Executed :
      (now : Surroundings f) (id : String) (header : AppHeader) (payload : Bytes) (s s' : Agent f)
      (b : ℕ) (bs : Bytes)
      → answer_at f py root (key_of f py root id header) s ≡ none
      → process_decoded f py root now id payload (ok header) s ≡ (s', b ∷ bs)
      → Executed id header payload (b ∷ bs) now.cached_at s'
  first-Executed now id header payload s s' b bs new h =
      elim (Bool-cases (length payload == header.payload_len)) [
        | inr wrong ↦
            let e : (s, []) ≡ (s', b ∷ bs) = rw wrong at h in
            absurd (ground (arith, ap (λ p. p.1) e))
        | inl right ↦ record {
          framed = right;
          kept =
              stored-answer now id header (dispatch f py root now header payload none s) s' b bs
                (sym (process-new now id header payload s right new) ∙ h);
        }
      ]

  -- A message with the header that its first bytes decode to.
  abbrev pub Carries : Bytes → AppHeader → Type 0
  Carries data_ header = decode_header (take header_size data_) ≡ ok header

  pub process_request-decoded :
      (now : Surroundings f) (id : String) (data_ : Bytes) (header : AppHeader) (s : Agent f)
      → Carries data_ header
      → process_request f py root now id data_ s
        ≡ process_decoded f py root now id (drop header_size data_) (ok header) s
  unfolding process_request decode_header
  process_request-decoded now id [] header s h = absurd (ground arith)
  process_request-decoded now id (b ∷ bs) header s h =
      ap (λ p. process_decoded f py root now id (drop header_size (b ∷ bs)) p s) h

  -- Exactly one execution. A client sends a request for the first time and gets a response. After any
  -- requests by other clients or with other ids, the same request comes again, before the time to live
  -- of its answer is over. It gets the same response, byte for byte, and nothing of the server changes:
  -- no file, no session and no answer. (The client is not the one that stands for all tasks.)
  pub process_request-replay :
      (now later : Surroundings f) (id : String) (data_ : Bytes) (header : AppHeader)
      (s s' : Agent f) (b : ℕ) (bs : Bytes) (between : List (Request f py root))
      → Carries data_ header
      → string_eq.beq "default_client" id ≡ false
      → answer_at f py root (key_of f py root id header) s ≡ none
      → process_request f py root now id data_ s ≡ (s', b ∷ bs)
      → All
          (λ r.
            Concerns
              (Differs f py root (key_of f py root id header))
              (decode_header (take header_size r.data_))
              r.client_id)
          between
      → lt (sub later.looked_up_at now.cached_at) (of_nat idempotency_ttl) ≡ true
      → process_request f py root later id data_ (process_all f py root between s')
        ≡ (process_all f py root between s', b ∷ bs)
  process_request-replay now later id data_ header s s' b bs between carries own new first others
        fresh =
      let k = key_of f py root id header in
      let payload = drop header_size data_ in
      let after = process_all f py root between s' in
      let e =
        first-Executed now id header payload s s' b bs new
          (sym (process_request-decoded now id data_ header s carries) ∙ first) in
      let kept =
        process_all-view f py root (answer_at f py root k)
          (answer-Spares f py root k (λ r o. rw own refl)) (Differs f py root k)
          (λ s id header sent t h. answer_at-store f py root k _ sent t s h)
          (λ s id header t h. answer_at-get f py root k _ t s h) between s' others in
      process_request-decoded later id data_ header after carries
      ∙ process-again later id header payload after b bs now.cached_at
          (record { framed = e.framed; kept = kept ∙ e.kept }) fresh
