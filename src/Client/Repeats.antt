-- ===== src/Client/Repeats.antt =====
-- What a request over an asynchronous transport sends.
use rudp_agent_stack.Base.{
  ℕ, zero, suc, ◌+◌, ◌≤◌, ◌≡◌, refl, ap, ◌∙◌, ◌⊎◌, inl, inr, none, List, ◌∷◌, ok, err, arith,
  Result,
}
use rudp_agent_stack.Bytes.{Bytes}
use rudp_agent_stack.Envelope.{encode_message, final_req_id}
use rudp_agent_stack.Agent.Values.{Python}
use rudp_agent_stack.Client.{
  ClientRequestSpec, AgentClient, Response, Failure, retryable, raised, Ended, or_again, send_loop,
  max_retries, encode_payload, send_request_spec,
}
use rudp_agent_stack.Client.Rudp.{AsyncClient, attempt}

-- A list with so many copies in front.
abbrev pub copies : {A : Type 0} → ℕ → A → List A → List A
copies zero x xs = xs
copies (suc n) x xs = copies n x (x ∷ xs)

or_again-either :
    {T : Type 0} (x : T × Result Failure Response) (again : T → T × Result Ended Response)
    → ((or_again x again).0 ≡ x.0) ⊎ ((or_again x again).0 ≡ (again x.0).0)
or_again-either (s, ok r) again = inl refl
or_again-either (s, err retryable) again = inr refl
or_again-either (s, err raised) again = inl refl

abbrev Repeats : Bytes → ℕ → List Bytes → List Bytes → Type 0
Repeats bs most before after = (n : ℕ) × (n ≤ most) × (after ≡ copies n bs before)

loop-Repeats :
    (py : Python) (id : ℕ) (bs : Bytes) (left : ℕ) (c : AsyncClient)
    → Repeats bs left c.sent (send_loop (attempt py id (ok bs)) (λ t. t) left c).0.sent
unfolding send_loop attempt
loop-Repeats py id bs zero c = (0, omega arith, refl)
loop-Repeats py id bs (suc left) c =
    let again = send_loop (attempt py id (ok bs)) (λ t. t) left in
    elim (or_again-either (attempt py id (ok bs) c) again) [
      | inl once ↦ (1, omega arith, ap (λ (t : AsyncClient). t.sent) once)
      | inr more ↦
          let (n, most, e) = loop-Repeats py id bs left (attempt py id (ok bs) c).0 in
          (suc n, omega arith, ap (λ (t : AsyncClient). t.sent) more ∙ e)
    ]

-- A request over an asynchronous transport, whose message can be encoded, sends at most six messages, all
-- of the same bytes and so under the same id, and leaves the count of ids one higher and no override.
pub send_request_spec-Repeats :
    (py : Python) (spec : ClientRequestSpec) (payload bs : Bytes) (c : AgentClient AsyncClient)
    → encode_payload py spec ≡ ok payload
    → encode_message spec.opcode 0 (c.current_id + 1) payload c.active_override ≡ ok bs
    → (let c' = (send_request_spec py (attempt py) (λ t. t) spec c).0 in
        ((n : ℕ) × (n ≤ 6) × (c'.transport.sent ≡ copies n bs c.transport.sent))
        × (c'.current_id ≡ c.current_id + 1)
        × (c'.active_override ≡ none))
unfolding send_request_spec
send_request_spec-Repeats py spec payload bs c encoded message =
    rw (encoded, message)
      (
        loop-Repeats py (final_req_id (c.current_id + 1) c.active_override) bs (suc max_retries)
            c.transport,
        refl,
        refl,
      )
