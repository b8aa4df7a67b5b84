-- ===== src/Retry.antt =====
-- pkg/middleware/retry.go: retry, over the attempts as they turn out. Durations are nanoseconds.
pub mod Bounds
mod Tests
use psrpc.Base.{
  ℕ, ◌+◌, ◌-◌, Bool, true, false, not, ◌||◌, List, [], ◌∷◌, Option, none, some, if◌then◌else◌,
  nat_beq, ltb, max,
}
use psrpc.Errors.Codes.{ErrorCode, deadline_exceeded, unavailable}
use psrpc.Errors.Values.{
  GoError, coded, no_subscriber, foreign, get_error_code, err_request_canceled,
}

-- What GetRetryParameters returns.
pub record Parameters : Type 0 where
  pub retry : Bool
  pub timeout : ℕ
  pub wait_time : ℕ

-- RetryOptions. A negative MaxAttempts is like 0: no attempt has that number.
pub record RetryOptions (D : Type 0) : Type 0 where
  pub max_attempts : ℕ
  pub timeout : ℕ
  pub backoff : ℕ
  pub is_recoverable : Option (GoError D → Bool)
  pub get_retry_parameters : Option (GoError D → ℕ → Parameters)

-- How an attempt turned out, the wait of the NoSubscriberError that its error wraps (0, if it wraps
-- none), how long it took, and whether the caller was done before the wait for
-- the next one was over.
pub record Attempt (D : Type 0) : Type 0 where
  pub error : Option (GoError D)
  pub wrapped_wait : ℕ
  pub elapsed : ℕ
  pub canceled : Bool

-- The attempts made, by the timeout each was given; the waits between them; and what was returned,
-- if anything was yet.
pub record Retried (D : Type 0) : Type 0 where
  pub timeouts : List ℕ
  pub waits : List ℕ
  pub result : Option (Option (GoError D))

code_is_timeout : Option ErrorCode → Bool
code_is_timeout none = true
code_is_timeout (some deadline_exceeded) = true
code_is_timeout (some unavailable) = true
code_is_timeout (some _) = false

module _ {D : Type 0} where
  unfoldable pub is_timeout : GoError D → Bool
  unfolding code_is_timeout
  is_timeout err = code_is_timeout (get_error_code err)

  -- `errors.As(err, &nse)`, for the wait: of the error itself, or of one that it wraps.
  unfoldable pub no_subscriber_wait : GoError D → ℕ → ℕ
  no_subscriber_wait (no_subscriber e w) wrapped = w
  no_subscriber_wait (coded e) wrapped = wrapped
  no_subscriber_wait (foreign msg inner st) wrapped = wrapped

  abbrev pub recoverable : Option (GoError D → Bool) → GoError D → Bool
  recoverable none err = is_timeout err
  recoverable (some f) err = f err

  -- getRetryWithBackoffParameters, where `timeout` is the variable that its function keeps.
  unfoldable pub backoff_parameters : RetryOptions D → ℕ → GoError D → ℕ → Parameters
  backoff_parameters o timeout err attempt =
      if not (recoverable o.is_recoverable err) || nat_beq attempt o.max_attempts
      then record { retry = false; timeout = 0; wait_time = 0 }
      else record { retry = true; timeout = timeout + o.backoff; wait_time = 0 }

  unfoldable pub parameters :
      RetryOptions D → Option (GoError D → ℕ → Parameters) → ℕ → GoError D → ℕ → Parameters
  unfolding backoff_parameters
  parameters o none timeout err attempt = backoff_parameters o timeout err attempt
  parameters o (some f) timeout err attempt = f err attempt

  unfoldable pub returned : ℕ → Option (GoError D) → Retried D
  returned timeout err = record { timeouts = timeout ∷ []; waits = []; result = some err }

  unfoldable pub again : ℕ → ℕ → Retried D → Retried D
  again timeout wait r = record {
    timeouts = timeout ∷ r.timeouts;
    waits = wait ∷ r.waits;
    result = r.result;
  }

  unfoldable pub after_error : ℕ → GoError D → Attempt D → Parameters → Retried D → Retried D
  unfolding returned again no_subscriber_wait
  after_error timeout err a p rest =
      if p.retry
      then (if a.canceled
          then returned timeout (some err_request_canceled)
          else again timeout (max p.wait_time (no_subscriber_wait err a.wrapped_wait - a.elapsed))
              rest)
      else returned timeout (some err)

  -- The loop, from the attempt numbered `attempt` on.
  unfoldable pub retry_from :
      (ℕ → GoError D → ℕ → Parameters) → List (Attempt D) → ℕ → ℕ → Retried D
  unfolding returned after_error
  retry_from choose [] timeout attempt = record { timeouts = []; waits = []; result = none }
  retry_from choose (a ∷ tries) timeout attempt = elim a.error [
    | none ↦ returned timeout none
    | some err ↦
        let p = choose timeout err attempt in
        after_error timeout err a p (retry_from choose tries p.timeout (attempt + 1))
  ]

  unfoldable pub retry : RetryOptions D → List (Attempt D) → Retried D
  unfolding retry_from parameters
  retry o tries = retry_from (parameters o o.get_retry_parameters) tries o.timeout 1
