-- ===== src/Retry/Tests.antt =====
-- A run of retry: attempts that time out.
use psrpc.Base.{
  text, ℕ, ◌+◌, ◌*◌, ◌≤◌, ◌≡◌, refl, false, true, List, [], ◌∷◌, none, some, length, get_elem?,
  is_some, arith,
}
use psrpc.Errors.Values.{foreign, err_request_timed_out}
use psrpc.Retry.{
  RetryOptions, Attempt, backoff_parameters, parameters, returned, again, after_error, retry_from,
  retry,
}
use psrpc.Retry.Bounds.{retry_is_bounded}

abbrev thrice : RetryOptions ℕ
thrice = record {
  max_attempts = 3;
  timeout = 100;
  backoff = 50;
  is_recoverable = some (λ err. true);
  get_retry_parameters = none;
}

abbrev failing : Attempt ℕ
failing = record {
  error = some err_request_timed_out;
  wrapped_wait = 0;
  elapsed = 100;
  canceled = false;
}

abbrev failures : List (Attempt ℕ)
failures = failing ∷ failing ∷ failing ∷ failing ∷ []

retry_run : (retry thrice failures).timeouts ≡ 100 ∷ 150 ∷ 200 ∷ []
unfolding retry retry_from parameters backoff_parameters after_error returned again
retry_run = refl

-- An error that wraps a NoSubscriberError is followed by the rest of its wait.
wrapped_wait_is_kept :
    (retry thrice (
      record failing { error = some (foreign (text "none") none none); wrapped_wait = 300 }
      ∷ [])).waits
    ≡ 200 ∷ []
unfolding retry retry_from parameters backoff_parameters after_error returned again
wrapped_wait_is_kept = refl

retry_is_bounded_example :
    (length (retry thrice failures).timeouts ≤ 3)
    × (3 ≤ length failures → is_some (retry thrice failures).result ≡ true)
    × ((i t : ℕ) → get_elem? (retry thrice failures).timeouts i ≡ some t → t ≡ 100 + i * 50)
retry_is_bounded_example = retry_is_bounded thrice failures refl (omega arith)
