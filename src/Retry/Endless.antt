-- ===== src/Retry/Endless.antt =====
-- pkg/middleware/retry.go: a limit of attempts that is zero, as in an empty `RetryOptions`.
use livekit_psrpc.Prelude.{
  ℕ, zero, suc, ◌+◌, ◌^◌, ◌<◌, ◌≡◌, sym, ap, ◌∙◌, refl, Bool, true, false, Option, none, some,
  arith,
}
use livekit_psrpc.Errors.Value.{GoError}
use livekit_psrpc.Retry.Loop.{Duration, RetryOptions, recoverable, and_before, retry_loop, retry}
use livekit_psrpc.Retry.Attempts.{timeout_of, loop_again}

module _ {D : Type 0} (fn : ℕ → Duration → Option (GoError D)) (done : ℕ → Bool)
    (o : RetryOptions D) where
  loop_endless :
      (fuel k : ℕ)
      → 0 < k
      → o.max_attempts ≡ 0
      → o.get_retry_parameters ≡ none
      → ((k : ℕ) (t : Duration)
          → (err : GoError D) × (fn k t ≡ some err) × (recoverable o err ≡ true))
      → ((k : ℕ) → done k ≡ false)
      → retry_loop fn done o fuel k (timeout_of fn done o k) (timeout_of fn done o k) ≡ none
  unfolding retry_loop
  loop_endless zero k h unlimited d fails on = refl
  loop_endless (suc fuel) k h unlimited d fails on =
      let (err, e, can) = fails k (timeout_of fn done o k) in
      loop_again fn done o fuel k h err d e can (omega arith)
      ∙ rw (on k) (ap (and_before _) (loop_endless fuel (k + 1) (omega arith) unlimited d fails on))

  -- With `MaxAttempts` zero and no `GetRetryParameters`, a call that always fails with an error that is
  -- recoverable and is never canceled is retried without end: with no fuel does the loop end.
  pub retry_unlimited :
      (fuel : ℕ)
      → o.max_attempts ≡ 0
      → o.timeout < 2 ^ 64
      → o.get_retry_parameters ≡ none
      → ((k : ℕ) (t : Duration)
          → (err : GoError D) × (fn k t ≡ some err) × (recoverable o err ≡ true))
      → ((k : ℕ) → done k ≡ false)
      → retry fn done o fuel ≡ none
  unfolding retry
  retry_unlimited fuel unlimited small d fails on =
      let first : timeout_of fn done o 1 ≡ o.timeout = omega arith in
      ap (λ t. retry_loop fn done o fuel 1 t t) (sym first)
      ∙ loop_endless fuel 1 (omega arith) unlimited d fails on
