-- ===== src/Agent/Server.antt =====
-- server/agent_server.py: the pipeline of a request, and what the two transports do with it.
use rudp_agent_stack.Base.{
  ℕ, String, Option, none, some, List, [], ◌∷◌, ◌++◌, ok, err, Result, ltb, ◌==◌, if◌then◌else◌,
  length, take, drop,
}
use rudp_agent_stack.Bytes.{Bytes}
use rudp_agent_stack.Constants.{header_size}
use rudp_agent_stack.Exceptions.{Py}
use rudp_agent_stack.Rudp.Float.{Float}
use rudp_agent_stack.Upload.{strict}
use rudp_agent_stack.Idempotency.{key_eq, IdempotencyCache, get_response, store_response}
use rudp_agent_stack.Envelope.{AppHeader, decode_header}
use rudp_agent_stack.Envelope.Stream.{receive_message}
use rudp_agent_stack.Agent.Values.{Python}
use rudp_agent_stack.Agent.Paths.{Error, FilePath}
use rudp_agent_stack.Agent.Disk.{Disk}
use rudp_agent_stack.Agent.Handlers.{Agent, Surroundings}
use rudp_agent_stack.Agent.Handlers.Files.{is_missing}
use rudp_agent_stack.Agent.Dispatcher.{dispatch}

module _ (f : Float) (py : Python) (root : FilePath) where
  open f use {F, of_nat}

  -- A server that starts with a file system: no session, and no answer in the cache.
  abbrev pub new_agent : Disk → Agent f
  new_agent d = record {
    disk = d;
    session_manager = record {
      sessions = [];
      upload_mode = strict;
      session_ttl = of_nat 300;
      writes = [];
    };
    idempotency_cache = record { cache = [] };
  }

  abbrev pub put_cache : Agent f → IdempotencyCache f → Agent f
  put_cache s c = record s { idempotency_cache = c }

  -- A response that was built is stored, and nothing is answered where the building raised.
  abbrev pub store :
      Surroundings f → String → AppHeader → Agent f × Result Error Bytes → Agent f × Bytes
  store now client_id header (s, err e) = (s, [])
  store now client_id header (s, ok bs) = (
    put_cache s (
        store_response f (client_id, (header.request_id, header.opcode)) bs now.cached_at
          s.idempotency_cache),
    bs,
  )

  abbrev pub run : Surroundings f → String → AppHeader → Bytes → Agent f → Agent f × Bytes
  run now client_id header payload s =
      store now client_id header (dispatch f py root now header payload none s)

  -- An answer that was found replays, unless it is empty.
  abbrev pub replay_or_run :
      Surroundings f → String → AppHeader → Bytes → Agent f → Option Bytes → Agent f × Bytes
  replay_or_run now client_id header payload s none = run now client_id header payload s
  replay_or_run now client_id header payload s (some bs) =
      if is_missing bs then run now client_id header payload s else (s, bs)

  abbrev pub process_decoded :
      Surroundings f → String → Bytes → Py AppHeader → Agent f → Agent f × Bytes
  process_decoded now client_id payload (err e) s = (s, [])
  process_decoded now client_id payload (ok header) s =
      if length payload == header.payload_len
      then (let (c, found) =
            get_response f (client_id, (header.request_id, header.opcode)) now.looked_up_at
              s.idempotency_cache in
          replay_or_run now client_id header payload (put_cache s c) found)
      else (s, [])

  unfoldable pub process_request : Surroundings f → String → Bytes → Agent f → Agent f × Bytes
  process_request now client_id [] s = (s, [])
  process_request now client_id (b ∷ bs) s =
      process_decoded now client_id (drop header_size (b ∷ bs))
        (decode_header (take header_size (b ∷ bs))) s

  -- What goes back to the transport: the response and the request id.
  abbrev pub to_send : AppHeader → Agent f × Bytes → Agent f × List (Bytes × ℕ)
  to_send header (s, []) = (s, [])
  to_send header (s, b ∷ bs) = (s, (b ∷ bs, header.request_id) ∷ [])

  abbrev pub answer_decoded :
      Surroundings f → String → Bytes → Py AppHeader → Agent f → Agent f × List (Bytes × ℕ)
  answer_decoded now client_id data_ (err e) s = (s, [])
  answer_decoded now client_id data_ (ok header) s =
      to_send header (process_request now client_id data_ s)

  -- A message that the reliable transport has put together.
  unfoldable pub on_udp_message :
      Surroundings f → String → Bytes → Agent f → Agent f × List (Bytes × ℕ)
  on_udp_message now client_id data_ s =
      if ltb (length data_) header_size
      then (s, [])
      else answer_decoded now client_id data_ (decode_header (take header_size data_)) s

  abbrev pub serve_received :
      Surroundings f → String → Py (Bytes × Bytes) → Agent f → Option (Agent f × List (Bytes × ℕ))
  serve_received now client_id (err e) s = none
  serve_received now client_id (ok (header, payload)) s =
      some (answer_decoded now client_id (header ++ payload) (decode_header header) s)

  abbrev pub and_then :
      Option (Agent f × List (Bytes × ℕ))
      → Agent f
      → (Agent f → Agent f × List (Bytes × ℕ))
      → Agent f × List (Bytes × ℕ)
  and_then none s k = (s, [])
  and_then (some (s', sent)) s k = let (s'', more) = k s' in (s'', sent ++ more)

  -- The loop of `_handle_connection` for as many messages as there are surroundings, over the chunks
  -- that arrive. It ends where the stream does or a header is wrong.
  unfoldable pub handle_connection :
      List (Surroundings f) → String → List Bytes → Agent f → Agent f × List (Bytes × ℕ)
  handle_connection [] client_id arrived s = (s, [])
  handle_connection (now ∷ later) client_id arrived s =
      let (r, rest) = receive_message arrived in
      and_then (serve_received now client_id r s) s (handle_connection later client_id rest)
