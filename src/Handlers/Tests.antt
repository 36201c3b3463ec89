-- ===== src/Handlers/Tests.antt =====
-- pkg/server/rpc.go and pkg/server/stream.go: runs of the handlers.
use livekit_psrpc.Prelude.{
  ◌⊎◌, ◌≡◌, refl, inl, ℕ, ◌+◌, String, true, false, List, [], ◌∷◌, ◌++◌, Option, none, some, ok,
  ◌==◌, string_equality, elem, if◌then◌else◌,
}
use livekit_psrpc.Exchange.Wire.{Request, Codec}
use livekit_psrpc.Exchange.Respond.{Returned}
use livekit_psrpc.Handlers.Creation.{
  RequestInfo, Sub, new_rpc_handler, new_stream_rpc_handler, claim_subs, AllOrNothing,
  new_rpc_handler_lem,
}
use livekit_psrpc.Handlers.Request.{Answers, handle_request, handler_of}
use livekit_psrpc.Handlers.Handling.{Ends, handle_request_lem}
use livekit_psrpc.Handlers.Life.{
  Life, new_life, Event, arrives, takes, starts, closes, waits, ends, waiting, over, run, step,
}
use livekit_psrpc.Handlers.Completion.{LifeInv, run-LifeInv, finishing, ended, close_completes}
use livekit_psrpc.Handlers.Streams.{
  StreamHandler, new_stream_handler, StreamEvent, opens, registers, begins_close, begins_end,
  closed_streams, closes_stream, ends_close, run_stream, step_stream,
}
use livekit_psrpc.Handlers.Draining.{left_over}

abbrev info : RequestInfo
info = record {
  rpc_channel = "r";
  claim_response_channel = "c";
  stream_server_channel = "s";
  queue = true;
  require_claim = true;
}

-- A bus that refuses the claims.
abbrev no_claims : Sub → Option String
no_claims (c, queue) = if c == "c" then some "refused" else none

new_rpc_handler_lem_example :
    AllOrNothing no_claims
      (claim_subs no_claims info ++ ("r", true) ∷ [])
      []
      (new_rpc_handler no_claims info [])
    × AllOrNothing no_claims
        (claim_subs no_claims info ++ ("s", false) ∷ [])
        []
        (new_stream_rpc_handler no_claims info [])
new_rpc_handler_lem_example = new_rpc_handler_lem no_claims info []

abbrev numbers : Codec ℕ ℕ String
numbers = record { serialize_payload = λ n. ok n; deserialize_payload = λ n. ok n; no_bytes = 0 }

abbrev request : Request ℕ
request = record {
  request_id = "q";
  client_id = "k";
  sent_at = 1;
  expiry = 9;
  multi = false;
  raw_request = 5;
}

abbrev twice : ℕ → Returned ℕ String
twice n = record { response = some 10; error = none }

abbrev chosen : Answers ℕ String
chosen = record {
  affinity = λ n. none;
  publish_claim = none;
  answer = some "me";
  publish_response = none;
}

handle_request_lem_example :
    Ends numbers numbers
      (λ e. none)
      twice
      true
      "me"
      2
      request
      0
      chosen
      []
      (handle_request {C = ℕ} numbers numbers (λ e. none) twice true "me" 2 request 0 chosen [])
handle_request_lem_example =
    handle_request_lem numbers numbers (λ e. none) twice true "me" 2 request 0 chosen [] refl

-- The context and the request of an interceptor do not reach the service.
handler_run :
    handler_of (some (λ c q next. next (c + 1) (q + 1))) (λ (c q : ℕ). twice q) 1 2
    ≡ handler_of none (λ (c q : ℕ). twice q) 1 2
unfolding handler_of
handler_run = refl

-- A request that `run` has taken starts to be handled behind a close that waits for no request.
abbrev too_late : List Event
too_late = arrives ∷ takes false ∷ closes false ∷ waits ∷ ends ∷ starts ∷ []

abbrev late_life : Life
late_life = record {
  sub_open = false;
  buffered = 0;
  spawned = 0;
  handling = 1;
  closing = over;
  claims_open = false;
  completions = 1;
  complete = true;
  looping = true;
}

too_late-run : run too_late new_life ≡ some late_life
unfolding run step new_life
too_late-run = refl

run-LifeInv_example : LifeInv late_life
run-LifeInv_example = run-LifeInv too_late late_life too_late-run

abbrev at_work : Life
at_work = record {
  sub_open = false;
  buffered = 0;
  spawned = 0;
  handling = 2;
  closing = waiting;
  claims_open = true;
  completions = 0;
  complete = false;
  looping = true;
}

close_completes_example : run (finishing 2) at_work ≡ some (ended at_work)
close_completes_example = close_completes at_work refl

-- A stream that is registered behind the close, and one that is being closed elsewhere.
abbrev behind : List StreamEvent
behind =
    opens "a"
    ∷ opens "b"
    ∷ registers "a"
    ∷ opens "c"
    ∷ registers "c"
    ∷ begins_end "c"
    ∷ begins_close
    ∷ closes_stream "a"
    ∷ closes_stream "c"
    ∷ ends_close
    ∷ registers "b"
    ∷ []

abbrev left : StreamHandler
left = record {
  opening = [];
  streams = "b" ∷ "c" ∷ [];
  ending = "c" ∷ [];
  draining = true;
  to_close = [];
  closing = true;
  complete = true;
  late = "b" ∷ [];
}

behind-run : run_stream behind new_stream_handler ≡ some left
unfolding run_stream step_stream closed_streams new_stream_handler
behind-run = refl

left_over_example : (elem "c" left.late ≡ true) ⊎ (elem "c" left.ending ≡ true)
left_over_example = left_over behind left behind-run refl "c" (inl refl)
