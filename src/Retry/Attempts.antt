-- ===== src/Retry/Attempts.antt =====
-- pkg/middleware/retry.go: how many attempts are made, with which timeouts, and how they end.
use livekit_psrpc.Prelude.{
  ℕ, zero, suc, ◌+◌, ◌*◌, ◌-◌, ◌%◌, ◌^◌, ◌≤◌, ◌<◌, ◌≡◌, ◌≢◌, ◌⊎◌, inl, inr, refl, sym, ap, ◌∙◌,
  Bool, true, false, not, ◌||◌, List, [], ◌∷◌, Option, none, some, arith, length, ◌==◌,
  nat_equality, if◌then◌else◌, Bool-cases, Option-cases,
}
use livekit_psrpc.Errors.Value.{GoError}
use livekit_psrpc.Retry.Loop.{
  Duration, add_duration, RetryOptions, Outcome, succeeded, failed, request_canceled, recoverable,
  with_backoff, parameters, and_before, retry_loop, retry,
}

module _ {D : Type 0} (fn : ℕ → Duration → Option (GoError D)) (done : ℕ → Bool)
    (o : RetryOptions D) where
  -- The timeout of an attempt, from the first on: one backoff more each time, as an int64.
  abbrev pub timeout_of : ℕ → Duration
  timeout_of k = (o.timeout + (k - 1) * o.backoff) % 2 ^ 64

  -- An attempt that is followed by another one.
  abbrev pub GoesOn : ℕ → Type 0
  GoesOn k =
      (err : GoError D) × (fn k (timeout_of k) ≡ some err)
      × (recoverable o err ≡ true)
      × (k ≢ o.max_attempts)
      × (done k ≡ false)

  -- How the last attempt ends the call.
  abbrev pub EndsWith : ℕ → Outcome D → Type 0
  EndsWith k succeeded = fn k (timeout_of k) ≡ none
  EndsWith k (failed err) =
      (fn k (timeout_of k) ≡ some err) × ((recoverable o err ≡ false) ⊎ (k ≡ o.max_attempts))
  EndsWith k request_canceled =
      (err : GoError D) × (fn k (timeout_of k) ≡ some err)
      × (recoverable o err ≡ true)
      × (k ≢ o.max_attempts)
      × (done k ≡ true)

  -- The attempts from the k-th on, with the timeouts that they had.
  abbrev pub Attempts : ℕ → List Duration → Outcome D → Type 0
  Attempts k [] out = ⊥
  Attempts k (t ∷ []) out = (t ≡ timeout_of k) × EndsWith k out
  Attempts k (t ∷ u ∷ ts) out = (t ≡ timeout_of k) × GoesOn k × Attempts (k + 1) (u ∷ ts) out

  next_timeout : (k : ℕ) → 0 < k → add_duration (timeout_of k) o.backoff ≡ timeout_of (k + 1)
  next_timeout zero h = absurd (omega arith)
  next_timeout (suc k) h =
      let here : suc k - 1 ≡ k = omega arith in
      let later : suc k + 1 - 1 ≡ suc k = omega arith in
      let grown : suc k * o.backoff ≡ k * o.backoff + o.backoff = omega arith in
      rw here rw later rw grown (omega arith)

  -- One round of the loop, with the parameters of the backoff.
  loop_ok :
      (fuel k : ℕ) (t kept : Duration)
      → fn k t ≡ none
      → retry_loop fn done o (suc fuel) k t kept ≡ some (succeeded, t ∷ [])
  unfolding retry_loop
  loop_ok fuel k t kept e = rw (e, retry_loop) refl

  loop_failed :
      (fuel k : ℕ) (t : Duration) (err : GoError D)
      → o.get_retry_parameters ≡ none
      → fn k t ≡ some err
      → (recoverable o err ≡ false) ⊎ (k ≡ o.max_attempts)
      → retry_loop fn done o (suc fuel) k t t ≡ some (failed err, t ∷ [])
  unfolding retry_loop parameters with_backoff
  loop_failed fuel k t err d e (inl cannot) = rw (e, retry_loop) rw d rw cannot refl
  loop_failed fuel k t err d e (inr last) =
      let stop : (not (recoverable o err) || k == o.max_attempts) ≡ true =
        elim (Bool-cases (recoverable o err)) [
          | inl can ↦ rw can ((nat_equality.decides _ _).1 last)
          | inr cannot ↦ rw cannot refl
        ] in
      rw (e, retry_loop) rw d rw stop refl

  parameters_again :
      (k : ℕ) (t : Duration) (err : GoError D)
      → o.get_retry_parameters ≡ none
      → recoverable o err ≡ true
      → k ≢ o.max_attempts
      → parameters o t err k ≡ (
        record { again = true; timeout = add_duration t o.backoff; wait_time = 0 },
        add_duration t o.backoff,
      )
  unfolding parameters with_backoff
  parameters_again k t err d can more =
      let go : (not (recoverable o err) || k == o.max_attempts) ≡ false =
        elim (Bool-cases (k == o.max_attempts)) [
          | inl same ↦ absurd (more ((nat_equality.decides _ _).0 same))
          | inr differs ↦ rw can differs
        ] in
      rw d rw go refl

  pub loop_again :
      (fuel k : ℕ)
      → 0 < k
      → (err : GoError D) → o.get_retry_parameters ≡ none
      → fn k (timeout_of k) ≡ some err
      → recoverable o err ≡ true
      → k ≢ o.max_attempts
      → retry_loop fn done o (suc fuel) k (timeout_of k) (timeout_of k) ≡ (
          if done k
          then some (request_canceled, timeout_of k ∷ [])
          else and_before
              (timeout_of k)
              (retry_loop fn done o fuel (k + 1) (timeout_of (k + 1)) (timeout_of (k + 1))))
  unfolding retry_loop
  loop_again fuel k h err d e can more =
      rw (e, retry_loop) rw (parameters_again k (timeout_of k) err d can more) rw (next_timeout k h)
        refl

  -- What a round comes to.
  abbrev Round : ℕ → Type 0
  Round k =
      (fn k (timeout_of k) ≡ none)
      ⊎ ((err : GoError D) × (fn k (timeout_of k) ≡ some err)
          × (((recoverable o err ≡ false) ⊎ (k ≡ o.max_attempts))
              ⊎ ((recoverable o err ≡ true) × (k ≢ o.max_attempts))))

  differs_lem : (k : ℕ) → (k == o.max_attempts) ≡ false → k ≢ o.max_attempts
  differs_lem k h = ground arith

  Round-cases : (k : ℕ) → Round k
  Round-cases k = elim (Option-cases (fn k (timeout_of k))) [
    | inl ok ↦ inl ok
    | inr (err, e) ↦ inr (
      err,
      e,
      elim (Bool-cases (recoverable o err)) [
        | inr cannot ↦ inl (inl cannot)
        | inl can ↦ elim (Bool-cases (k == o.max_attempts)) [
          | inl same ↦ inl (inr ((nat_equality.decides _ _).0 same))
          | inr differs ↦ inr (can, differs_lem k differs)
        ]
      ],
    )
  ]

  Attempts-more :
      (k : ℕ) (ts : List Duration) (out : Outcome D)
      → GoesOn k
      → Attempts (k + 1) ts out
      → Attempts k (timeout_of k ∷ ts) out
  Attempts-more k [] out g a = absurd a
  Attempts-more k (t ∷ ts) out g a = (refl, g, a)

  -- Before the last attempt that is allowed, the fuel that is left is enough.
  loop_ends :
      (fuel k : ℕ)
      → 0 < k
      → k ≤ o.max_attempts
      → o.max_attempts < k + fuel
      → o.get_retry_parameters ≡ none
      → (out : Outcome D) × (ts : List Duration) × (retry_loop fn done o fuel k
            (timeout_of k)
            (timeout_of k)
          ≡ some (out, ts))
        × Attempts k ts out
        × (k + length ts ≤ o.max_attempts + 1)
  loop_ends zero k h low high d = absurd (omega arith)
  loop_ends (suc fuel) k h low high d = elim (Round-cases k) [
    | inl ok ↦ (succeeded, timeout_of k ∷ [], loop_ok fuel k _ _ ok, (refl, ok), omega arith)
    | inr (err, e, inl stop) ↦ (
      failed err,
      timeout_of k ∷ [],
      loop_failed fuel k _ err d e stop,
      (refl, (e, stop)),
      omega arith,
    )
    | inr (err, e, inr (can, more)) ↦ elim (Bool-cases (done k)) [
      | inl over ↦ (
        request_canceled,
        timeout_of k ∷ [],
        loop_again fuel k h err d e can more ∙ rw over refl,
        (refl, (err, e, can, more, over)),
        omega arith,
      )
      | inr on ↦
          let (out, ts, run, tries, few) =
            loop_ends fuel (k + 1) (omega arith) (omega arith) (omega arith) d in
          (
            out,
            timeout_of k ∷ ts,
            loop_again fuel k h err d e can more ∙ rw on rw run refl,
            Attempts-more k ts out (err, e, can, more, on) tries,
            omega arith,
          )
    ]
  ]

  -- With at least one attempt allowed, a duration as an int64, and no `GetRetryParameters` given, fuel
  -- for the allowed attempts is enough: `retry` ends after at most that many. The k-th attempt has the
  -- timeout plus k - 1 backoffs; every attempt but the last fails in a recoverable way before the limit
  -- with the call not canceled, and the last one is what ends the call: a success, an error that is not
  -- recoverable or at the limit, or a cancellation after a recoverable one before the limit.
  pub retry_ends :
      (fuel : ℕ)
      → 1 ≤ o.max_attempts
      → o.max_attempts ≤ fuel
      → o.timeout < 2 ^ 64
      → o.get_retry_parameters ≡ none
      → (out : Outcome D) × (ts : List Duration) × (retry fn done o fuel ≡ some (out, ts))
        × Attempts 1 ts out
        × (length ts ≤ o.max_attempts)
  unfolding retry
  retry_ends fuel some_allowed enough small d =
      let (out, ts, run, tries, few) =
        loop_ends fuel 1 (omega arith) some_allowed (omega arith) d in
      let first : timeout_of 1 ≡ o.timeout = omega arith in
      (out, ts, ap (λ t. retry_loop fn done o fuel 1 t t) (sym first) ∙ run, tries, omega arith)
