-- ===== src/Retry/Loop.antt =====
-- pkg/middleware/retry.go: `retry` and its parameters. A duration is the bit pattern of an int64, so
-- addition wraps and a pattern from 2 ^ 63 on is negative. `fn` and the `select` on `done` are given
-- by what they answer at each attempt.
use livekit_psrpc.Prelude.{
  ℕ, zero, suc, ◌+◌, ◌%◌, ◌^◌, Bool, true, false, not, ◌&&◌, ◌||◌, List, [], ◌∷◌, ◌++◌, Option,
  none, some, ltb, ◌==◌, nat_equality, string_equality, if◌then◌else◌,
}
use livekit_psrpc.Errors.Codes
use livekit_psrpc.Errors.Value.{GoError, as_psrpc}

abbrev pub Duration : Type 0
Duration = ℕ

abbrev pub add_duration : Duration → Duration → Duration
add_duration a b = (a + b) % 2 ^ 64

abbrev pub is_positive : Duration → Bool
is_positive t = ltb 0 t && ltb t (2 ^ 63)

-- What `GetRetryParameters` answers.
pub record RetryParameters : Type 0 where
  pub again : Bool
  pub timeout : Duration
  pub wait_time : Duration

pub record RetryOptions (D : Type 0) : Type 0 where
  pub max_attempts : ℕ
  pub timeout : Duration
  pub backoff : Duration
  pub is_recoverable : Option (GoError D → Bool)
  pub get_retry_parameters : Option (GoError D → ℕ → RetryParameters)

pub data Outcome (D : Type 0) : Type 0 where
  succeeded : Outcome D
  failed : GoError D → Outcome D
  request_canceled : Outcome D

abbrev pub and_before {ℓ} :
    {A : Type ℓ} → Duration → Option (A × List Duration) → Option (A × List Duration)
and_before t none = none
and_before t (some (a, ts)) = some (a, t ∷ ts)

-- The options of one attempt: the timeout is one more option, behind the caller's.
unfoldable pub next_opts {ℓ} : {A : Type ℓ} → (Duration → A) → Duration → List A → List A
next_opts with_timeout timeout opts =
    if is_positive timeout then opts ++ with_timeout timeout ∷ [] else opts

module _ {D : Type 0} where
  unfoldable pub is_timeout : GoError D → Bool
  unfolding as_psrpc
  is_timeout err = elim (as_psrpc err) [
    | none ↦ true
    | some e ↦ e.code == Codes.deadline_exceeded || e.code == Codes.unavailable
  ]

  -- `IsRecoverable`, or `isTimeout` if it is nil.
  unfoldable pub recoverable : RetryOptions D → GoError D → Bool
  unfolding is_timeout
  recoverable o err = elim o.is_recoverable [ none ↦ is_timeout err | some test ↦ test err ]

  -- The closure of `getRetryWithBackoffParameters` over its timeout: the answer, and the timeout that
  -- it keeps.
  unfoldable pub with_backoff :
      RetryOptions D → Duration → GoError D → ℕ → RetryParameters × Duration
  unfolding recoverable
  with_backoff o kept err attempt =
      if not (recoverable o err) || attempt == o.max_attempts
      then (record { again = false; timeout = 0; wait_time = 0 }, kept)
      else (let next = add_duration kept o.backoff in
          (record { again = true; timeout = next; wait_time = 0 }, next))

  unfoldable pub parameters : RetryOptions D → Duration → GoError D → ℕ → RetryParameters × Duration
  unfolding with_backoff
  parameters o kept err attempt = elim o.get_retry_parameters [
    | none ↦ with_backoff o kept err attempt
    | some get ↦ (get err attempt, kept)
  ]

  -- The loop of `retry`: the outcome, and the timeouts that `fn` was called with. `none` is a loop
  -- that has not ended when the fuel is used up.
  unfoldable pub retry_loop :
      (ℕ → Duration → Option (GoError D))
      → (ℕ → Bool)
      → RetryOptions D
      → ℕ
      → ℕ
      → Duration
      → Duration
      → Option (Outcome D × List Duration)
  unfolding parameters
  retry_loop fn done o zero attempt timeout kept = none
  retry_loop fn done o (suc fuel) attempt timeout kept = elim (fn attempt timeout) [
    | none ↦ some (succeeded, timeout ∷ [])
    | some err ↦
        let (p, kept') = parameters o kept err attempt in
        let rest = retry_loop fn done o fuel (attempt + 1) p.timeout kept' in
        if not p.again
        then some (failed err, timeout ∷ [])
        else (if done attempt
            then some (request_canceled, timeout ∷ [])
            else and_before timeout rest)
  ]

  unfoldable pub retry :
      (ℕ → Duration → Option (GoError D))
      → (ℕ → Bool)
      → RetryOptions D
      → ℕ
      → Option (Outcome D × List Duration)
  unfolding retry_loop
  retry fn done o fuel = retry_loop fn done o fuel 1 o.timeout o.timeout
