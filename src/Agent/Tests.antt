-- ===== src/Agent/Tests.antt =====
-- Requests to an agent over a small file system: a read that comes again, and a write outside of the
-- sandbox.
use rudp_agent_stack.Base.{◌≡◌, refl, false, none, List, [], ◌∷◌, ok, All, string_eq, nat_eq, take}
use rudp_agent_stack.Bytes.{Bytes}
use rudp_agent_stack.Constants.{header_size}
use rudp_agent_stack.Idempotency.{key_eq}
use rudp_agent_stack.Envelope.{decode_header}
use rudp_agent_stack.Samples.{milli}
use rudp_agent_stack.Agent.Paths.{path_eq, under}
use rudp_agent_stack.Agent.Handlers.{Agent}
use rudp_agent_stack.Agent.Server.{process_request}
use rudp_agent_stack.Agent.Confined.{file_at}
use rudp_agent_stack.Agent.Confined.Requests.{Request, process_all, Concerns}
use rudp_agent_stack.Agent.Guarantees.{answer_at, Differs, process_all-confined}
use rudp_agent_stack.Agent.Guarantees.Replay.{process_request-replay}
use rudp_agent_stack.Agent.Toy.{toy, root, passwd, at, message, header_of, request, start, program}

-- GET of a file, and the answer: the header, and a mixed payload with the content.
abbrev get_file : Bytes
get_file = message 3 7 (1 ∷ [])

abbrev file_answer : Bytes
file_answer = 3 ∷ 0 ∷ 0 ∷ 0 ∷ 0 ∷ 0 ∷ 7 ∷ 0 ∷ 0 ∷ 0 ∷ 6 ∷ 0 ∷ 0 ∷ 0 ∷ 1 ∷ 7 ∷ 1 ∷ []

abbrev after_get : Agent milli
after_get = (process_request milli toy root (at 0) "client" get_file start).0

get_answered :
    process_request milli toy root (at 0) "client" get_file start ≡ (after_get, 1 ∷ file_answer)
unfolding program
get_answered = refl

-- An upload over a file outside of the sandbox is refused with 403.
abbrev put_outside : Bytes
put_outside = message 1 8 (2 ∷ [])

abbrev requests : List (Request milli toy root)
requests = request 5 "other" put_outside ∷ request 6 "other" get_file ∷ []

passwd_outside : under root passwd ≡ false
unfolding program
passwd_outside = refl

process_all-confined_example :
    file_at passwd (process_all milli toy root requests start).disk ≡ file_at passwd start.disk
process_all-confined_example =
    process_all-confined milli toy root requests start passwd passwd_outside

decoded : decode_header (take header_size get_file) ≡ ok (header_of 3 7 1)
unfolding program
decoded = refl

new_request : answer_at milli toy root ("client", (7, 3)) start ≡ none
unfolding program
new_request = refl

others :
    All
      (λ r.
        Concerns
          (Differs milli toy root ("client", (7, 3)))
          (decode_header (take header_size r.data_))
          r.client_id)
      requests
unfolding program
others = (refl, (refl, tt))

process_request-replay_example :
    process_request milli toy root
      (at 119999)
      "client"
      get_file
      (process_all milli toy root requests after_get)
    ≡ (process_all milli toy root requests after_get, 1 ∷ file_answer)
process_request-replay_example =
    process_request-replay milli toy root (at 0) (at 119999) "client" get_file (header_of 3 7 1)
      start after_get 1 file_answer requests decoded refl new_request get_answered others refl
