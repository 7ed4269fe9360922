-- ===== src/Client/Answered.antt =====
-- A request is answered by a message that carries its id.
use rudp_agent_stack.Base.{
  ◌+◌, ℕ, zero, suc, ◌≡◌, refl, sym, ap, ◌∙◌, none, some, List, [], ◌∷◌, Result, ok, err, ltb,
  length, take, drop, arith, nat_eq, inl, inr, Bool-cases, Member, ◌⊎◌, ◌==◌,
}
use rudp_agent_stack.Base.Dict.{lookup, contains, insert, lookup-insert, lookup-insert_self}
use rudp_agent_stack.Bytes.{Bytes}
use rudp_agent_stack.Constants.{header_size, max_payload_len}
use rudp_agent_stack.Exceptions.{Py}
use rudp_agent_stack.Envelope.{AppHeader, decode_header}
use rudp_agent_stack.Agent.Values.{Python}
use rudp_agent_stack.Envelope.{encode_message, final_req_id}
use rudp_agent_stack.Client.{
  encode_payload, send_payload, send_request_spec, ClientRequestSpec, AgentClient, max_retries,
  Failure, retryable, raised, Response, Ended, decode_payload, send_loop, or_again,
}
use rudp_agent_stack.Client.Rudp.{
  AsyncClient, Pending, take_header, on_message_received, receive_all, first_delivery,
  later_deliveries, payload_of, response_in, attempt,
}

-- A message with the id of a request.
pub record Carries (id : ℕ) (data_ : Bytes) : Type 0 where
  pub header : AppHeader
  pub decoded : decode_header (take header_size data_) ≡ ok header
  pub same_id : header.request_id ≡ id

take_header-lookup :
    (id : ℕ) (data_ : Bytes) (r : Py AppHeader) (p : Pending)
    → decode_header (take header_size data_) ≡ r
    → (lookup id (take_header data_ r p) ≡ lookup id p)
      ⊎ ((lookup id (take_header data_ r p) ≡ some (some data_)) × Carries id data_)
take_header-lookup id data_ (err e) p d = inl refl
take_header-lookup id data_ (ok header) p d = elim (Bool-cases (contains header.request_id p)) [
  | inr late ↦ rw late (inl refl)
  | inl waits ↦ rw waits (elim (Bool-cases (header.request_id == id)) [
    | inl same ↦ inr (
      lookup-insert header.request_id id (some data_) p ∙ rw same refl,
      record { header = header; decoded = d; same_id = ground arith },
    )
    | inr other ↦ inl (lookup-insert header.request_id id (some data_) p ∙ rw other refl)
  ])
]

on_message_received-lookup :
    (id : ℕ) (data_ : Bytes) (p : Pending)
    → (lookup id (on_message_received data_ p) ≡ lookup id p)
      ⊎ ((lookup id (on_message_received data_ p) ≡ some (some data_)) × Carries id data_)
unfolding on_message_received
on_message_received-lookup id data_ p = elim (Bool-cases (ltb (length data_) header_size)) [
  | inl short ↦ rw short (inl refl)
  | inr long ↦ rw long (take_header-lookup id data_ (decode_header (take header_size data_)) p refl)
]

-- A message that arrived and carries the id is what the request finds.
record Found (id : ℕ) (arrived : List Bytes) (p : Pending) : Type 0 where
  pub data_ : Bytes
  pub heard : Member data_ arrived
  pub carries : Carries id data_
  pub found : lookup id p ≡ some (some data_)

receive_all-lookup :
    (id : ℕ) (arrived : List Bytes) (p : Pending)
    → (lookup id (receive_all arrived p) ≡ lookup id p) ⊎ Found id arrived (receive_all arrived p)
unfolding receive_all
receive_all-lookup id [] p = inl refl
receive_all-lookup id (d ∷ rest) p = elim (receive_all-lookup id rest (on_message_received d p)) [
  | inr f ↦
      inr (record { data_ = f.data_; heard = inr f.heard; carries = f.carries; found = f.found })
  | inl e ↦ elim (on_message_received-lookup id d p) [
    | inl same ↦ inl (e ∙ same)
    | inr (set, carries) ↦
        inr (record { data_ = d; heard = inl refl; carries = carries; found = e ∙ set })
  ]
]

-- A response is the payload of a message that arrived for the request.
pub record IsAnswered (py : Python) (id : ℕ) (heard : Bytes → Type 0) (r : Response) : Type 0 where
  pub data_ : Bytes
  pub arrived : heard data_
  pub carries : Carries id data_
  pub is_response :
      decode_payload py (take carries.header.payload_len (drop header_size data_)) ≡ ok r

payload_of-ok :
    (py : Python) (data_ : Bytes) (header : AppHeader) (r : Response)
    → payload_of py data_ (ok header) ≡ ok r
    → decode_payload py (take header.payload_len (drop header_size data_)) ≡ ok r
payload_of-ok py data_ header r h = elim (Bool-cases (ltb max_payload_len header.payload_len)) [
  | inl large ↦ absurd (ground (arith, rw large at h))
  | inr fits ↦ ground (arith, rw fits at h)
]

answered :
    (py : Python) (id : ℕ) (arrived : List Bytes) (p : Pending) (r : Response)
    → lookup id p ≡ some none
    → response_in py (lookup id (receive_all arrived p)) ≡ ok r
    → IsAnswered py id (λ d. Member d arrived) r
answered py id arrived p r waits h = elim (receive_all-lookup id arrived p) [
  | inl e ↦ absurd (ground (arith, rw (e, waits) at h))
  | inr f ↦ record {
    data_ = f.data_;
    arrived = f.heard;
    carries = f.carries;
    is_response =
        payload_of-ok py f.data_ f.carries.header r
          (sym (ap (response_in py) f.found ∙ ap (payload_of py f.data_) f.carries.decoded) ∙ h);
  }
]

-- A message of some attempt.
abbrev pub Delivered : List (List Bytes) → Bytes → Type 0
Delivered [] d = ⊥
Delivered (first ∷ rest) d = Member d first ⊎ Delivered rest d

first-Delivered :
    (all : List (List Bytes)) (d : Bytes) → Member d (first_delivery all) → Delivered all d
first-Delivered [] d m = m
first-Delivered (first ∷ rest) d m = inl m

later-Delivered :
    (all : List (List Bytes)) (d : Bytes) → Delivered (later_deliveries all) d → Delivered all d
later-Delivered [] d m = m
later-Delivered (first ∷ rest) d m = inr m

IsAnswered-imp :
    (py : Python) (id : ℕ) (P Q : Bytes → Type 0) (r : Response)
    → ((d : Bytes) → P d → Q d)
    → IsAnswered py id P r
    → IsAnswered py id Q r
IsAnswered-imp py id P Q r imp a = record {
  data_ = a.data_;
  arrived = imp a.data_ a.arrived;
  carries = a.carries;
  is_response = a.is_response;
}

attempt-IsAnswered :
    (py : Python) (id : ℕ) (m : Py Bytes) (c : AsyncClient) (r : Response)
    → (attempt py id m c).1 ≡ ok r
    → IsAnswered py id (Delivered c.deliveries) r
unfolding attempt
attempt-IsAnswered py id (err e) c r h = absurd (ground arith)
attempt-IsAnswered py id (ok bs) c r h =
    IsAnswered-imp py id (λ d. Member d (first_delivery c.deliveries)) (Delivered c.deliveries) r
      (first-Delivered c.deliveries)
      (answered py id (first_delivery c.deliveries) (insert id none c.pending_requests) r
        (lookup-insert_self id none c.pending_requests) h)

attempt_deliveries :
    (py : Python) (id : ℕ) (m : Py Bytes) (c : AsyncClient) (d : Bytes)
    → Delivered (attempt py id m c).0.deliveries d
    → Delivered c.deliveries d
unfolding attempt
attempt_deliveries py id (err e) c d h = h
attempt_deliveries py id (ok bs) c d h = later-Delivered c.deliveries d h

-- Where the loop ends with a response, some attempt gave it.
or_again-ok :
    {T : Type 0} (x : T × Result Failure Response) (again : T → T × Result Ended Response)
    (r : Response)
    → (or_again x again).1 ≡ ok r
    → (x.1 ≡ ok r) ⊎ ((again x.0).1 ≡ ok r)
or_again-ok (s, ok q) again r h = inl (ground arith)
or_again-ok (s, err retryable) again r h = inr h
or_again-ok (s, err raised) again r h = absurd (ground arith)

loop-IsAnswered :
    (py : Python) (id : ℕ) (m : Py Bytes) (left : ℕ) (c : AsyncClient) (r : Response)
    → (send_loop (attempt py id m) (λ t. t) left c).1 ≡ ok r
    → IsAnswered py id (Delivered c.deliveries) r
unfolding send_loop
loop-IsAnswered py id m zero c r h = absurd (ground arith)
loop-IsAnswered py id m (suc left) c r h =
    elim (or_again-ok (attempt py id m c) (send_loop (attempt py id m) (λ t. t) left) r h) [
      | inl now ↦ attempt-IsAnswered py id m c r now
      | inr next ↦
          let c' = (attempt py id m c).0 in
          IsAnswered-imp py id (Delivered c'.deliveries) (Delivered c.deliveries) r
            (attempt_deliveries py id m c) (loop-IsAnswered py id m left c' r next)
    ]

sent-IsAnswered :
    (py : Python) (spec : ClientRequestSpec) (payload : Py Bytes) (c : AgentClient AsyncClient)
    (r : Response)
    → (send_payload py (attempt py) (λ t. t) spec payload c).1 ≡ ok r
    → IsAnswered py
        (final_req_id (c.current_id + 1) c.active_override)
        (Delivered c.transport.deliveries)
        r
sent-IsAnswered py spec (err e) c r h = absurd (ground arith)
sent-IsAnswered py spec (ok payload) c r h =
    loop-IsAnswered py (final_req_id (c.current_id + 1) c.active_override)
      (encode_message spec.opcode 0 (c.current_id + 1) payload c.active_override) (suc max_retries)
      c.transport r h

-- When a request over an asynchronous transport returns a response, then some message that arrived during
-- one of its attempts carries the id of the request, the one that was set or else the next in the count,
-- and the response is what the payload of that message decodes to.
pub send_request_spec-IsAnswered :
    (py : Python) (spec : ClientRequestSpec) (c : AgentClient AsyncClient) (r : Response)
    → (send_request_spec py (attempt py) (λ t. t) spec c).1 ≡ ok r
    → IsAnswered py
        (final_req_id (c.current_id + 1) c.active_override)
        (Delivered c.transport.deliveries)
        r
unfolding send_request_spec
send_request_spec-IsAnswered py spec c r h = sent-IsAnswered py spec (encode_payload py spec) c r h
