-- ===== src/Client/Retries.antt =====
-- What the retries over TCP achieve: the loop closes the connection and never opens another.
use rudp_agent_stack.Base.{
  ℕ, zero, suc, ◌+◌, ◌≡◌, refl, ap, ◌∙◌, false, List, Result, ok, err, arith,
}
use rudp_agent_stack.Bytes.{Bytes}
use rudp_agent_stack.Exceptions.{Py}
use rudp_agent_stack.Envelope.{encode_message, final_req_id}
use rudp_agent_stack.Agent.Values.{Python}
use rudp_agent_stack.Client.{
  ClientRequestSpec, AgentClient, Response, Failure, retryable, raised, Ended, max_retries_exceeded,
  or_again, send_loop, max_retries, encode_payload, send_request_spec,
}
use rudp_agent_stack.Client.Tcp.{TcpClient, close, attempt}

or_again-retryable :
    {T : Type 0} (x : T × Result Failure Response) (again : T → T × Result Ended Response)
    → x.1 ≡ err retryable
    → or_again x again ≡ again x.0
or_again-retryable (s, ok r) again h = absurd (ground arith)
or_again-retryable (s, err retryable) again h = refl
or_again-retryable (s, err raised) again h = absurd (ground arith)

-- Behind a closed connection an attempt changes nothing, and its error is caught like the one before.
attempt-closed :
    (py : Python) (id : ℕ) (m : Py Bytes) (before c : TcpClient)
    → (attempt py id m before).1 ≡ err retryable
    → c.connected ≡ false
    → ((attempt py id m c).1 ≡ err retryable) × ((attempt py id m c).0 ≡ c)
unfolding attempt
attempt-closed py id (err e) before c h closed = (h, refl)
attempt-closed py id (ok bs) before c h closed = rw closed (refl, refl)

-- The loop ends without a response, and nothing more was sent.
record IsLost (sent : List Bytes) (x : TcpClient × Result Ended Response) : Type 0 where
  pub no_response : x.1 ≡ err max_retries_exceeded
  pub nothing_sent : x.0.sent ≡ sent

loop-closed :
    (py : Python) (id : ℕ) (m : Py Bytes) (left : ℕ) (before c : TcpClient)
    → (attempt py id m before).1 ≡ err retryable
    → c.connected ≡ false
    → IsLost c.sent (send_loop (attempt py id m) close left c)
unfolding send_loop
loop-closed py id m zero before c h closed = record { no_response = refl; nothing_sent = refl }
loop-closed py id m (suc left) before c h closed =
    let (failed, same) = attempt-closed py id m before c h closed in
    let c' = (attempt py id m c).0 in
    let rest = loop-closed py id m left before (close c') h refl in
    rw
      (or_again-retryable (attempt py id m c)
        (λ t. send_loop (attempt py id m) close left (close t)) failed)
      (record {
        no_response = rest.no_response;
        nothing_sent = rest.nothing_sent ∙ ap (λ (t : TcpClient). t.sent) same;
      })

loop-IsLost :
    (py : Python) (id : ℕ) (m : Py Bytes) (left : ℕ) (c : TcpClient)
    → (attempt py id m c).1 ≡ err retryable
    → IsLost (attempt py id m c).0.sent (send_loop (attempt py id m) close (suc left) c)
unfolding send_loop
loop-IsLost py id m left c h =
    rw
      (or_again-retryable (attempt py id m c)
        (λ t. send_loop (attempt py id m) close left (close t)) h)
      (loop-closed py id m left c (close (attempt py id m c).0) h refl)

abbrev pub first_attempt :
    Python → ClientRequestSpec → Bytes → AgentClient TcpClient → TcpClient × Result Failure Response
first_attempt py spec payload c =
    attempt py (final_req_id (c.current_id + 1) c.active_override)
      (encode_message spec.opcode 0 (c.current_id + 1) payload c.active_override) c.transport

-- When the first attempt of a request over TCP ends with an error that the loop catches, then the request
-- fails after its retries, whatever the server does, and the retries send nothing.
pub send_request_spec-retries :
    (py : Python) (spec : ClientRequestSpec) (payload : Bytes) (c : AgentClient TcpClient)
    → encode_payload py spec ≡ ok payload
    → (first_attempt py spec payload c).1 ≡ err retryable
    → (let (c', r) = send_request_spec py (attempt py) close spec c in
        (r ≡ err max_retries_exceeded)
        × (c'.transport.sent ≡ (first_attempt py spec payload c).0.sent))
unfolding send_request_spec
send_request_spec-retries py spec payload c encoded h =
    let lost =
      loop-IsLost py (final_req_id (c.current_id + 1) c.active_override)
        (encode_message spec.opcode 0 (c.current_id + 1) payload c.active_override) max_retries
        c.transport h in
    rw encoded (lost.no_response, lost.nothing_sent)
