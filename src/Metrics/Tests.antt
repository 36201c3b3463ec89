-- ===== src/Metrics/Tests.antt =====
-- pkg/middleware/metrics.go: concrete requests.
use livekit_psrpc.Prelude.{◌≡◌, refl, ℕ, String, true, List, [], ◌∷◌, none, some}
use livekit_psrpc.Errors.Value.{plain}
use livekit_psrpc.Exchange.Respond.{Returned}
use livekit_psrpc.Metrics.Observer.{
  client_role, server_role, on_unary_request, on_multi_request, on_stream_recv, on_stream_send,
  on_stream_open, on_stream_close, client_rpc, server_rpc, recv, send, close, new_stream_metrics,
  stream_calls, stream_call, multi_request,
}
use livekit_psrpc.Metrics.Counts.{multi_request_lem}

abbrev size : ℕ → ℕ
size n = n

abbrev answered : ℕ → Returned ℕ String
answered n = record { response = some n; error = none }

abbrev lost : Returned ℕ String
lost = record { response = none; error = some (plain "timeout") }

-- Two answers, of 5 and 9 bytes, and an error between them.
abbrev three : List (Returned ℕ String)
three = answered 5 ∷ lost ∷ answered 9 ∷ []

multi_request_lem_example :
    multi_request size size 40 three ≡ on_multi_request client_role 2 1 14 40
multi_request_lem_example = multi_request_lem size size 40 three

-- The server's observer counts an error of a multi request.
server_counts_errors :
    server_rpc size size true (λ req. lost) 7 ≡ (lost, on_multi_request server_role 0 1 7 0)
unfolding server_rpc
server_counts_errors = refl

client_observed :
    client_rpc size size answered 7 ≡ (answered 7, on_unary_request client_role none 7 7)
unfolding client_rpc
client_observed = refl

-- A Recv that fails is told without its error, and the second Close is not told.
stream_observed :
    (stream_calls {D = String} size client_role
      (recv 3 (some (plain "EOF")) ∷ send 4 (some (plain "EOF")) ∷ close none ∷ close none ∷ [])
      (new_stream_metrics client_role)).told
    ≡ on_stream_open client_role
      ∷ on_stream_recv client_role none 3
      ∷ on_stream_send client_role (some (plain "EOF")) 4
      ∷ on_stream_close client_role
      ∷ []
unfolding stream_calls stream_call new_stream_metrics
stream_observed = refl
