-- ===== src/Rudp/Endpoint/Moves.antt =====
-- Every step of two endpoints keeps what holds between them, in both directions.
use rudp_agent_stack.Base.{
  Option, none, some, ℕ, ◌≡◌, refl, sym, ap, ◌∙◌, List, [], ◌∷◌, ◌++◌, ok, err, arith, append-nil,
  append_assoc,
}
use rudp_agent_stack.Exceptions.{Py}
use rudp_agent_stack.Bytes.{Bytes}
use rudp_agent_stack.Rudp.Receiver.Stream.{init-IsFaithful}
use rudp_agent_stack.Rudp.Float.{Float}
use rudp_agent_stack.Rudp.Sender.Chunks.{fragments}
use rudp_agent_stack.Rudp.Sender.Base.{enqueue_data-Expects, check_timeouts-Expects}
use rudp_agent_stack.Rudp.Sender.Ledger.{init-IsSound}
use rudp_agent_stack.Rudp.Sender.Sound.{enqueue_data-IsSound, check_timeouts-IsSound}
use rudp_agent_stack.Rudp.Sender.Truthful.{check_timeouts-IsTruthful}
use rudp_agent_stack.Rudp.Sender.Run.{stream_of, enqueue_data-IsTruthful, init-IsTruthful}
use rudp_agent_stack.Rudp.Connection.{receive_datagram}
use rudp_agent_stack.Constants.{max_rwnd}
use rudp_agent_stack.Rudp.Endpoint.{
  Endpoint, fresh, send, hear, tick, tick_after, loop_round, Received, rounds, Pair, Step, sends,
  ticks, hears, other, Reach, start, next,
}
use rudp_agent_stack.Rudp.Endpoint.Invariant.{OneWay, first, expected, advance}
use rudp_agent_stack.Rudp.Endpoint.Hearing.{BothWays, hear-BothWays}

stream_of-append :
    (ms : List Bytes) (m : Bytes) → stream_of (ms ++ m ∷ []) ≡ stream_of ms ++ fragments m
stream_of-append [] m = append-nil (fragments m)
stream_of-append (x ∷ ms) m =
    ap (λ l. fragments x ++ l) (stream_of-append ms m)
    ∙ sym (append_assoc (fragments x) (stream_of ms) (fragments m))

module _ (f : Float) where
  open f use {F}

  -- For the other direction nothing changes where the receiver and its replies do not.
  listening :
      (a b a' : Endpoint f)
      → a'.connection.receiver ≡ a.connection.receiver
      → a'.replies ≡ a.replies
      → OneWay f b a
      → OneWay f b a'
  listening a b a' same replies h = record {
    speaking = rw same h.speaking;
    faithful = rw same h.faithful;
    honest = rw (same, replies) h.honest;
  }

  send-BothWays :
      (a b : Endpoint f) (data_ : Bytes) (id : ℕ) (now : F)
      → BothWays f a b
      → BothWays f (send f data_ id now a) b
  unfolding send
  send-BothWays a b data_ id now (h, k) =
      let s = a.connection.sender in
      let (truthful, sound, below) = h.speaking in
      let grown = stream_of-append a.queued data_ in
      (
        advance f a b (send f data_ id now a) (fragments data_) grown
            (
              rw grown (
                  enqueue_data-IsTruthful f (stream_of a.queued) (first f a) data_ id now s
                    truthful),
              enqueue_data-IsSound f data_ id now s sound,
              enqueue_data-Expects f (expected f b) data_ id now s below,
            )
            h,
        listening a b (send f data_ id now a) refl refl k,
      )

  tick-BothWays : (a b : Endpoint f) (now : F) → BothWays f a b → BothWays f (tick f now a) b
  unfolding tick
  tick-BothWays a b now (h, k) =
      let s = a.connection.sender in
      let (truthful, sound, below) = h.speaking in
      (
        advance f a b (tick f now a) [] (sym (append-nil (stream_of a.queued)))
            (
              check_timeouts-IsTruthful f (stream_of a.queued) (first f a) now s truthful,
              check_timeouts-IsSound f now s sound,
              check_timeouts-Expects f (expected f b) now s below,
            )
            h,
        listening a b (tick f now a) refl refl k,
      )

  tick_after-BothWays :
      (a b : Endpoint f) (sent : Py (List Bytes)) (later : F)
      → BothWays f a b
      → BothWays f (tick_after f sent later a) b
  tick_after-BothWays a b (ok packets) later h = tick-BothWays a b later h
  tick_after-BothWays a b (err e) later h = h

  loop_round-BothWays :
      (a b : Endpoint f) (data_ : Option Bytes) (now later : F)
      → Received f data_ b
      → BothWays f a b
      → BothWays f (loop_round f data_ now later a) b
  unfolding loop_round
  loop_round-BothWays a b none now later arrives h = tick-BothWays a b later h
  loop_round-BothWays a b (some []) now later arrives h = tick-BothWays a b later h
  loop_round-BothWays a b (some (x ∷ bs)) now later arrives h =
      tick_after-BothWays (hear f (x ∷ bs) now a) b (receive_datagram f (x ∷ bs) now a.connection).1
        later (hear-BothWays f a b (x ∷ bs) now arrives h)

  abbrev pub Both : Pair f → Type 0
  Both s = BothWays f s.near s.far

  pub Step-Both : {s t : Pair f} → Step f s t → Both s → Both t
  Step-Both (sends s data_ id now) h = send-BothWays s.near s.far data_ id now h
  Step-Both (ticks s now) h = tick-BothWays s.near s.far now h
  Step-Both (hears s data_ now arrives) h = hear-BothWays f s.near s.far data_ now arrives h
  Step-Both (rounds s data_ now later arrives) h =
      loop_round-BothWays s.near s.far data_ now later arrives h
  Step-Both (other st) (h, k) = let (h', k') = Step-Both st (k, h) in (k', h')

  fresh-OneWay : OneWay f (fresh f) (fresh f)
  fresh-OneWay = record {
    speaking = (init-IsTruthful f max_rwnd, init-IsSound f max_rwnd, omega arith);
    faithful = init-IsFaithful [];
    honest = tt;
  }

  pub Reach-Both : {s : Pair f} → Reach f s → Both s
  Reach-Both start = (fresh-OneWay, fresh-OneWay)
  Reach-Both (next r st) = Step-Both st (Reach-Both r)
