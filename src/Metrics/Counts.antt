-- ===== src/Metrics/Counts.antt =====
-- pkg/middleware/metrics.go: what an observer is told of a request and of a stream.
use livekit_psrpc.Prelude.{
  ◌≡◌, refl, ◌∙◌, ap, ℕ, ◌+◌, Bool, true, false, ◌||◌, List, [], ◌∷◌, ◌++◌, none, some,
  if◌then◌else◌, arith, inl, inr, Bool-cases, Option-cases,
}
use livekit_psrpc.Exchange.Respond.{Returned}
use livekit_psrpc.Metrics.Observer.{
  MetricRole, client_role, Observation, on_multi_request, on_stream_send, on_stream_recv,
  on_stream_close, size_of, StreamCall, recv, send, close, StreamMetrics, new_stream_metrics,
  stream_call, stream_calls, MultiMetrics, new_multi_metrics, multi_send, multi_recv, multi_recvs,
  multi_close, multi_request,
}

zero_add : (n : ℕ) → 0 + n ≡ n
zero_add n = omega arith

module _ {M D : Type 0} where
  abbrev pub answers : List (Returned M D) → ℕ
  answers [] = 0
  answers (r ∷ rs) = (elim r.error [ none ↦ 1 | some e ↦ 0 ]) + answers rs

  abbrev pub failures : List (Returned M D) → ℕ
  failures [] = 0
  failures (r ∷ rs) = (elim r.error [ none ↦ 0 | some e ↦ 1 ]) + failures rs

  abbrev pub bytes : (M → ℕ) → List (Returned M D) → ℕ
  bytes size [] = 0
  bytes size (r ∷ rs) = size_of size r.response + bytes size rs

module _ {Q M D : Type 0} (req_size : Q → ℕ) (res_size : M → ℕ) where
  abbrev Sums : List (Returned M D) → MultiMetrics → MultiMetrics → Type 0
  Sums rs m m' =
      (m'.response_count ≡ m.response_count + answers rs)
      × (m'.error_count ≡ m.error_count + failures rs)
      × (m'.rx_bytes ≡ m.rx_bytes + bytes res_size rs)
      × (m'.tx_bytes ≡ m.tx_bytes)

  multi_recv-Sums :
      (r : Returned M D) (m : MultiMetrics) → Sums (r ∷ []) m (multi_recv res_size r m)
  unfolding multi_recv
  multi_recv-Sums r m = elim (Option-cases r.error) [
    | inl e ↦
        (simp (e) (omega arith), simp (e) (omega arith), simp (e) (omega arith), simp (e) refl)
    | inr (x, e) ↦
        (simp (e) (omega arith), simp (e) (omega arith), simp (e) (omega arith), simp (e) refl)
  ]

  multi_recvs-Sums :
      (rs : List (Returned M D)) (m : MultiMetrics) → Sums rs m (multi_recvs res_size rs m)
  unfolding multi_recvs
  multi_recvs-Sums [] m = (omega arith, omega arith, omega arith, refl)
  multi_recvs-Sums (r ∷ rs) m =
      let (a, b, c, d) = multi_recvs-Sums rs (multi_recv res_size r m) in
      let (a1, b1, c1, d1) = multi_recv-Sums r m in
      (omega arith, omega arith, omega arith, omega arith)

  -- At the Close of a multi request, the client's observer is told how many of its responses were
  -- answers and how many errors, the sum of their sizes, and the size of the request.
  pub multi_request_lem :
      (req : Q) (rs : List (Returned M D))
      → multi_request req_size res_size req rs
        ≡ on_multi_request client_role (answers rs) (failures rs) (bytes res_size rs) (req_size req)
  unfolding multi_request multi_send multi_close
  multi_request_lem req rs =
      let (a, b, c, d) = multi_recvs-Sums rs (multi_send req_size req new_multi_metrics) in
      rw
        (
          a,
          b,
          c,
          d,
          zero_add (answers rs),
          zero_add (failures rs),
          zero_add (bytes res_size rs),
          zero_add (req_size req),
        )
        refl

module _ {D : Type 0} where
  abbrev is_close : Observation D → Bool
  is_close (on_stream_close role) = true
  is_close _ = false

  abbrev pub closings : List (Observation D) → ℕ
  closings [] = 0
  closings (o ∷ os) = (if is_close o then 1 else 0) + closings os

  closings-append :
      (os : List (Observation D)) (o : Observation D)
      → closings (os ++ o ∷ []) ≡ closings os + (if is_close o then 1 else 0)
  closings-append [] o = omega arith
  closings-append (x ∷ os) o = let ih = closings-append os o in omega arith

module _ {M D : Type 0} (size : M → ℕ) (role : MetricRole) where
  abbrev pub closes : List (StreamCall M D) → Bool
  closes [] = false
  closes (close answer ∷ cs) = true
  closes (_ ∷ cs) = closes cs

  abbrev Told : StreamMetrics D → Type 0
  Told s = closings s.told ≡ (if s.closed then 1 else 0)

  stream_call-Told :
      (c : StreamCall M D) (s : StreamMetrics D) → Told s → Told (stream_call size role c s)
  unfolding stream_call
  stream_call-Told (recv m answer) s t =
      let a = closings-append s.told (on_stream_recv role none (size m)) in omega arith
  stream_call-Told (send m answer) s t =
      let a = closings-append s.told (on_stream_send role answer (size m)) in omega arith
  stream_call-Told (close answer) s t = elim (Bool-cases s.closed) [
    | inl e ↦ rw e (t ∙ simp (e) refl)
    | inr e ↦
        let n : closings s.told ≡ 0 = t ∙ simp (e) refl in
        let a = closings-append s.told (on_stream_close role) in rw e (omega arith)
  ]

  stream_call-closed :
      (c : StreamCall M D) (cs : List (StreamCall M D)) (s : StreamMetrics D)
      → (stream_call size role c s).closed || closes cs ≡ s.closed || closes (c ∷ cs)
  unfolding stream_call
  stream_call-closed (recv m answer) cs s = refl
  stream_call-closed (send m answer) cs s = refl
  stream_call-closed (close answer) cs s = elim (Bool-cases s.closed) [
    | inl e ↦ simp (e) refl
    | inr e ↦ simp (e) refl
  ]

  stream_calls-Told :
      (cs : List (StreamCall M D)) (s : StreamMetrics D)
      → Told s
      → closings (stream_calls size role cs s).told ≡ (if s.closed || closes cs then 1 else 0)
  unfolding stream_calls
  stream_calls-Told [] s t = elim (Bool-cases s.closed) [
    | inl e ↦ t ∙ simp (e) refl
    | inr e ↦ t ∙ simp (e) refl
  ]
  stream_calls-Told (c ∷ cs) s t =
      stream_calls-Told cs (stream_call size role c s) (stream_call-Told c s t)
      ∙ ap (λ b. if b then 1 else 0) (stream_call-closed c cs s)

  -- A stream's observer is told once of its close, by the first of its calls of Close, and never without one.
  pub closings-stream_calls :
      (cs : List (StreamCall M D))
      → closings (stream_calls size role cs (new_stream_metrics role)).told
        ≡ (if closes cs then 1 else 0)
  unfolding new_stream_metrics
  closings-stream_calls cs = stream_calls-Told cs (new_stream_metrics role) refl
