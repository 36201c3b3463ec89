-- ===== src/Exchange/Tests.antt =====
-- pkg/client/rpc.go and pkg/server/rpc.go: runs of a request, and instances of its theorems. Messages
-- are texts that are their own encoding.
use livekit_psrpc.Prelude.{ℕ, ◌≡◌, refl, String, true, [], ◌∷◌, Option, none, some, Result, ok, err}
use livekit_psrpc.Errors.Codes
use livekit_psrpc.Errors.Foreign.{GrpcCode}
use livekit_psrpc.Errors.Value.{GoError, Status, plain, wrap, psrpc, as_psrpc, message}
use livekit_psrpc.Selection.Loop.{SelectionOpts, claim, Texts, select_loop, select_server}
use livekit_psrpc.Exchange.Wire.{Response, Codec}
use livekit_psrpc.Exchange.Respond.{send_response}
use livekit_psrpc.Exchange.Call.{
  Answer, answered, ended, canceled, Channels, Outside, receive, await, err_request_canceled,
  context_error, new_rpc, proceed, send,
}
use livekit_psrpc.Exchange.Travel.{sent, response_travels, error_travels, empty_error_lost}
use livekit_psrpc.Exchange.Cleanup.{AreAlike, call, new_rpc-AreAlike, call_completes}

abbrev text_codec : Codec String String String
text_codec = record {
  serialize_payload = λ m. ok m;
  deserialize_payload = λ b. ok b;
  no_bytes = "";
}

-- A plain error is a gRPC status here if it wraps another.
abbrev status_of : GoError String → Option (Status String)
status_of (plain m) = none
status_of (wrap m e) =
    some (record { code = GrpcCode.not_found; message = m; details = "trace" ∷ [] })
status_of (psrpc e c ds) = none

abbrev not_found : GoError String
not_found = wrap "outer" (psrpc (plain "no such room") Codes.not_found ("room" ∷ []))

abbrev response_of : Option String → Option (GoError String) → Response String String
response_of r e = sent text_codec status_of "r1" "s1" 5 (record { response = r; error = e })

abbrev received : Option String → Option (GoError String) → Result (GoError String) String
received r e = receive text_codec (response_of r e)

response_travels_example : received (some "hello") none ≡ ok "hello"
response_travels_example =
    response_travels text_codec status_of "r1" "s1" 5 "hello" "hello" refl refl

error_travels_example :
    received none (some not_found)
    ≡ err (psrpc (plain "no such room") Codes.not_found ("room" ∷ []))
unfolding as_psrpc message
error_travels_example =
    error_travels text_codec status_of "r1" "s1" 5 none not_found
      (record { error = plain "no such room"; code = Codes.not_found; details = "room" ∷ [] }) refl
      (λ e. cc)

abbrev silent : GoError String
silent = psrpc (plain "") Codes.internal []

empty_error_lost_example : received none (some silent) ≡ ok ""
unfolding as_psrpc message
empty_error_lost_example =
    empty_error_lost text_codec status_of "r1" "s1" 5 none silent
      (record { error = plain ""; code = Codes.internal; details = [] }) "" refl refl refl

abbrev texts : Texts
texts = record { no_servers = λ n. "no servers available"; formatted = λ s. s }

abbrev options : SelectionOpts String
options = record {
  minimum_affinity = 0;
  maximum_affinity = 0;
  accept_first_available = true;
  affinity_timeout = 0;
  short_circuit_timeout = 0;
  selection_func = none;
}

abbrev answering : Answer String String → Outside String String
answering a = record {
  publish_request = none;
  events = claim (record { server_id = "s1"; affinity = 1065353216 }) ∷ [];
  publish_claim = none;
  answer = a;
}

abbrev others : Channels ℕ ℕ
others = record { claim_requests = ("r0", 1) ∷ []; response_channels = ("r0", 2) ∷ [] }

canceled_run :
    (call text_codec texts options true "c1" "r1" 5 10 7 8
      (ok "hi")
      (answering (ended canceled))
      others).result
    ≡ some (err err_request_canceled)
unfolding new_rpc send proceed select_server select_loop await context_error
canceled_run = refl

new_rpc-AreAlike_example :
    AreAlike
      (call text_codec texts options true "c1" "r1" 5 10 7 8
        (ok "hi")
        (answering (ended canceled))
        others).channels
      others
new_rpc-AreAlike_example =
    new_rpc-AreAlike text_codec texts options true "c1" "r1" 5 10 7 8 (ok "hi")
      (answering (ended canceled)) others (err err_request_canceled) refl refl canceled_run

taken :
    select_server texts options (claim (record { server_id = "s1"; affinity = 1065353216 }) ∷ [])
    ≡ some (ok "s1")
unfolding select_server select_loop
taken = refl

abbrev greeted : Outside String String
greeted = answering (
    answered (
      send_response text_codec status_of "r1" "s1" 9
        (record { response = some "hello"; error = none })))

call_completes_example :
    ((call text_codec texts options true "c1" "r1" 5 10 7 8 (ok "hi") greeted others).claim
      ≡ some (record { request_id = "r1"; server_id = "s1" }))
    × ((call text_codec texts options true "c1" "r1" 5 10 7 8 (ok "hi") greeted others).result
        ≡ some (ok "hello"))
call_completes_example =
    call_completes text_codec texts options true "c1" "r1" 5 10 7 8 (ok "hi") greeted others
      status_of "s1" "s1" 9 "hi" "hello" "hello" refl refl refl refl taken refl refl refl
