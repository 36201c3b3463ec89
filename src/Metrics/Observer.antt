-- ===== src/Metrics/Observer.antt =====
-- pkg/middleware/metrics.go: the interceptors. An observer is the list of what it was told; `proto.Size`
-- is a parameter, and 0 on nil.
use livekit_psrpc.Prelude.{
  ℕ, ◌+◌, String, Bool, true, false, List, [], ◌∷◌, ◌++◌, Option, none, some, if◌then◌else◌,
}
use livekit_psrpc.Errors.Value.{GoError}
use livekit_psrpc.Exchange.Respond.{Returned}

pub data MetricRole : Type 0 where
  no_role : MetricRole
  client_role : MetricRole
  server_role : MetricRole

abbrev pub role_string : MetricRole → String
role_string client_role = "client"
role_string server_role = "server"
role_string no_role = "invalid"

-- The calls of a MetricsObserver.
pub data Observation (D : Type 0) : Type 0 where
  on_unary_request : MetricRole → Option (GoError D) → ℕ → ℕ → Observation D
  on_multi_request : MetricRole → ℕ → ℕ → ℕ → ℕ → Observation D
  on_stream_send : MetricRole → Option (GoError D) → ℕ → Observation D
  on_stream_recv : MetricRole → Option (GoError D) → ℕ → Observation D
  on_stream_open : MetricRole → Observation D
  on_stream_close : MetricRole → Observation D

abbrev pub size_of : {M : Type 0} → (M → ℕ) → Option M → ℕ
size_of size none = 0
size_of size (some m) = size m

module _ {Q M D : Type 0} (req_size : Q → ℕ) (res_size : M → ℕ) where
  unfoldable pub client_rpc : (Q → Returned M D) → Q → Returned M D × Observation D
  client_rpc next req =
      let r = next req in
      (r, on_unary_request client_role r.error (req_size req) (size_of res_size r.response))

  unfoldable pub server_rpc : Bool → (Q → Returned M D) → Q → Returned M D × Observation D
  server_rpc multi handler req =
      let r = handler req in
      let rx = req_size req in
      let tx = size_of res_size r.response in
      (
        r,
        if multi
            then elim r.error [
              | none ↦ on_multi_request server_role 1 0 rx tx
              | some e ↦ on_multi_request server_role 0 1 rx tx
            ]
            else on_unary_request server_role r.error rx tx,
      )

-- The calls of a stream with what the rest of the chain answers.
pub data StreamCall (M D : Type 0) : Type 0 where
  recv : M → Option (GoError D) → StreamCall M D
  send : M → Option (GoError D) → StreamCall M D
  close : Option (GoError D) → StreamCall M D

-- `closed` of a streamMetricsInterceptor, and the observer.
pub record StreamMetrics (D : Type 0) : Type 0 where
  pub closed : Bool
  pub told : List (Observation D)

unfoldable pub new_stream_metrics : {D : Type 0} → MetricRole → StreamMetrics D
new_stream_metrics role = record { closed = false; told = on_stream_open role ∷ [] }

module _ {M D : Type 0} (size : M → ℕ) (role : MetricRole) where
  -- `Recv` tells the observer before it calls the rest, so its error is nil.
  unfoldable pub stream_call : StreamCall M D → StreamMetrics D → StreamMetrics D
  stream_call (recv m answer) s = record s {
    told = s.told ++ on_stream_recv role none (size m) ∷ [];
  }
  stream_call (send m answer) s = record s {
    told = s.told ++ on_stream_send role answer (size m) ∷ [];
  }
  stream_call (close answer) s =
      if s.closed then s else record s { closed = true; told = s.told ++ on_stream_close role ∷ [] }

  unfoldable pub stream_calls : List (StreamCall M D) → StreamMetrics D → StreamMetrics D
  unfolding stream_call
  stream_calls [] s = s
  stream_calls (c ∷ cs) s = stream_calls cs (stream_call c s)

-- The fields of a multiRPCMetricsInterceptor.
pub record MultiMetrics : Type 0 where
  pub response_count : ℕ
  pub error_count : ℕ
  pub rx_bytes : ℕ
  pub tx_bytes : ℕ

abbrev pub new_multi_metrics : MultiMetrics
new_multi_metrics = record { response_count = 0; error_count = 0; rx_bytes = 0; tx_bytes = 0 }

unfoldable pub multi_send : {Q : Type 0} → (Q → ℕ) → Q → MultiMetrics → MultiMetrics
multi_send size req m = record m { tx_bytes = m.tx_bytes + size req }

module _ {M D : Type 0} (size : M → ℕ) where
  unfoldable pub multi_recv : Returned M D → MultiMetrics → MultiMetrics
  multi_recv r m =
      let counted : MultiMetrics = elim r.error [
        | none ↦ record m { response_count = m.response_count + 1 }
        | some e ↦ record m { error_count = m.error_count + 1 }
      ] in
      record counted { rx_bytes = counted.rx_bytes + size_of size r.response }

  unfoldable pub multi_recvs : List (Returned M D) → MultiMetrics → MultiMetrics
  unfolding multi_recv
  multi_recvs [] m = m
  multi_recvs (r ∷ rs) m = multi_recvs rs (multi_recv r m)

-- `Close`.
unfoldable pub multi_close : {D : Type 0} → MultiMetrics → Observation D
multi_close m = on_multi_request client_role m.response_count m.error_count m.rx_bytes m.tx_bytes

-- A multi request: its Send, the responses, and its Close.
unfoldable pub multi_request :
    {Q M D : Type 0} → (Q → ℕ) → (M → ℕ) → Q → List (Returned M D) → Observation D
unfolding multi_send multi_recvs multi_close
multi_request req_size res_size req rs =
    multi_close (multi_recvs res_size rs (multi_send req_size req new_multi_metrics))
