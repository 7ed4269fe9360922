-- ===== src/Client/Tests.antt =====
-- One request over each transport.
use rudp_agent_stack.Base.{ℕ, ◌≤◌, ◌≡◌, refl, true, false, none, [], ◌∷◌, ◌++◌, ok, err, nat_eq}
use rudp_agent_stack.Base.Dict.{lookup, insert, remove}
use rudp_agent_stack.Envelope.{decode_header, encode_message}
use rudp_agent_stack.Envelope.MixedMode.{encode, decode}
use rudp_agent_stack.Envelope.Stream.{receive_exact}
use rudp_agent_stack.Agent.Values.{text, int, field, end_object, get, has}
use rudp_agent_stack.Agent.Toy.{toy, message}
use rudp_agent_stack.Client.{
  ClientRequestSpec, json, AgentClient, Response, max_retries_exceeded, decode_payload,
  encode_payload, send_loop, send_request_spec,
}
use rudp_agent_stack.Client.Tcp as Tcp
use rudp_agent_stack.Client.Tcp.{TcpClient}
use rudp_agent_stack.Client.Rudp as Rudp
use rudp_agent_stack.Client.Rudp.{AsyncClient, on_message_received, receive_all}
use rudp_agent_stack.Client.Answered.{IsAnswered, Delivered, send_request_spec-IsAnswered}
use rudp_agent_stack.Client.Repeats.{copies, send_request_spec-Repeats}
use rudp_agent_stack.Client.Retries.{send_request_spec-retries}

program : Unit {0}
unfolding lookup insert remove decode_header encode_message encode decode receive_exact get has
    decode_payload encode_payload send_loop send_request_spec on_message_received receive_all
    Tcp.attempt Rudp.attempt
program = tt

abbrev spec : ClientRequestSpec
spec = record {
  opcode = 3;
  meta = field "filename" (text "in.txt") end_object;
  binary = [];
  encoding_mode = json;
}

-- The first attempt gets an answer to another request only, the second one its own.
abbrev client : AgentClient AsyncClient
client = record {
  transport = record {
    pending_requests = [];
    deliveries = (message 3 4 (1 ∷ []) ∷ []) ∷ ((7 ∷ []) ∷ message 3 1 (1 ∷ []) ∷ []) ∷ [];
    sent = [];
  };
  current_id = 0;
  active_override = none;
}

abbrev expected : Response
expected = record {
  status = int 200;
  resp_meta = field "filename" (text "in.txt") end_object;
  resp_binary = none;
}

second_attempt : send_request_spec toy (Rudp.attempt toy) (λ t. t) spec client ≡ (
  record {
    transport = record {
      pending_requests = [];
      deliveries = [];
      sent = message 3 1 (7 ∷ []) ∷ message 3 1 (7 ∷ []) ∷ [];
    };
    current_id = 1;
    active_override = none;
  },
  ok expected,
)
unfolding program
second_attempt = refl

gets : (send_request_spec toy (Rudp.attempt toy) (λ t. t) spec client).1 ≡ ok expected
unfolding program
gets = refl

send_request_spec-IsAnswered_example :
    IsAnswered toy 1 (Delivered client.transport.deliveries) expected
send_request_spec-IsAnswered_example = send_request_spec-IsAnswered toy spec client expected gets

-- An answer to another request comes first; the right one would be the next on the connection.
abbrev over_tcp : AgentClient TcpClient
over_tcp = record {
  transport = record {
    connected = true;
    broken = false;
    arrived = (message 3 4 (1 ∷ []) ++ message 3 1 (1 ∷ [])) ∷ [];
    sent = [];
  };
  current_id = 0;
  active_override = none;
}

send_request_spec-retries_example :
    let (c', r) = send_request_spec toy (Tcp.attempt toy) Tcp.close spec over_tcp in
    (r ≡ err max_retries_exceeded) × (c'.transport.sent ≡ message 3 1 (7 ∷ []) ∷ [])
unfolding program
send_request_spec-retries_example = send_request_spec-retries toy spec (7 ∷ []) over_tcp refl refl

encoded : encode_payload toy spec ≡ ok (7 ∷ [])
unfolding program
encoded = refl

in_envelope : encode_message 3 0 1 (7 ∷ []) none ≡ ok (message 3 1 (7 ∷ []))
unfolding program
in_envelope = refl

send_request_spec-Repeats_example :
    let c' = (send_request_spec toy (Rudp.attempt toy) (λ t. t) spec client).0 in
    ((n : ℕ) × (n ≤ 6) × (c'.transport.sent ≡ copies n (message 3 1 (7 ∷ [])) []))
    × (c'.current_id ≡ 1)
    × (c'.active_override ≡ none)
send_request_spec-Repeats_example =
    send_request_spec-Repeats toy spec (7 ∷ []) (message 3 1 (7 ∷ [])) client encoded in_envelope
