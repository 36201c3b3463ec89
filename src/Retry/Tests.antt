-- ===== src/Retry/Tests.antt =====
-- pkg/middleware/retry.go: runs of the retries, and instances of their theorems.
use livekit_psrpc.Prelude.{
  ℕ, ◌^◌, ◌≤◌, ◌≡◌, refl, Bool, false, List, [], ◌∷◌, Option, none, some, arith, length, leb,
  if◌then◌else◌, String,
}
use livekit_psrpc.Errors.Codes
use livekit_psrpc.Errors.Value.{GoError, plain, psrpc, as_psrpc}
use livekit_psrpc.Retry.Loop.{
  Duration, RetryOptions, Outcome, succeeded, failed, recoverable, is_timeout, with_backoff,
  parameters, retry_loop, retry, next_opts,
}
use livekit_psrpc.Retry.Attempts.{Attempts, retry_ends}

abbrev options : ℕ → RetryOptions String
options n = record {
  max_attempts = n;
  timeout = 5;
  backoff = 2;
  is_recoverable = none;
  get_retry_parameters = none;
}

-- A call that answers from the third attempt on, and one that never does.
abbrev third : ℕ → Duration → Option (GoError String)
third k t = if leb 3 k then none else some (plain "lost")

abbrev never : ℕ → Duration → Option (GoError String)
never k t = some (psrpc (plain "gone") Codes.unavailable [])

abbrev invalid : ℕ → Duration → Option (GoError String)
invalid k t = some (psrpc (plain "bad") Codes.invalid_argument [])

abbrev running : ℕ → Bool
running k = false

third_run : retry third running (options 4) 10 ≡ some (succeeded, 5 ∷ 7 ∷ 9 ∷ [])
unfolding retry retry_loop parameters with_backoff recoverable is_timeout as_psrpc
third_run = refl

never_run :
    retry never running (options 2) 10
    ≡ some (failed (psrpc (plain "gone") Codes.unavailable []), 5 ∷ 7 ∷ [])
unfolding retry retry_loop parameters with_backoff recoverable is_timeout as_psrpc
never_run = refl

invalid_run :
    retry invalid running (options 2) 10
    ≡ some (failed (psrpc (plain "bad") Codes.invalid_argument []), 5 ∷ [])
unfolding retry retry_loop parameters with_backoff recoverable is_timeout as_psrpc
invalid_run = refl

next_opts_run :
    (next_opts (λ t. t) 9 (1 ∷ 2 ∷ []) ≡ 1 ∷ 2 ∷ 9 ∷ [])
    × (next_opts (λ t. t) (2 ^ 63) (1 ∷ []) ≡ 1 ∷ [])
unfolding next_opts
next_opts_run = (refl, refl)

retry_ends_example :
    (out : Outcome String) × (ts : List Duration) × (retry third running (options 4) 4
      ≡ some (out, ts))
    × Attempts third running (options 4) 1 ts out
    × (length ts ≤ 4)
retry_ends_example =
    retry_ends third running (options 4) 4 (omega arith) (omega arith) (omega arith) refl
