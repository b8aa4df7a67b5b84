-- ===== src/Retry/Bounds.antt =====
-- How often retry tries, with which timeouts, and how it is paced.
use psrpc.Base.{
  ℕ, suc, zero, ◌+◌, ◌-◌, ◌*◌, ◌≤◌, ◌<◌, ◌≡◌, refl, sym, ◌∙◌, ap, subst, Bool, true, false, not,
  ◌||◌, List, [], ◌∷◌, Option, none, some, nat_beq, length, get_elem?, is_some, arith, Bool-cases,
  Option-cases, inl, inr, max,
}
use psrpc.Errors.Values.{GoError, err_request_canceled}
use psrpc.Retry.{
  recoverable, RetryOptions, Attempt, Retried, backoff_parameters, parameters, returned, again,
  after_error, retry_from, retry, no_subscriber_wait,
}

more_left :
    (r : Bool) (attempt most left : ℕ)
    → attempt + left ≡ most
    → (r || nat_beq attempt most) ≡ false
    → (l : ℕ) × (left ≡ suc l)
more_left r attempt most zero e b = ground arith
more_left r attempt most (suc l) e b = (l, refl)

module _ {D : Type 0} (o : RetryOptions D) where
  -- The attempts from one on: no more than `left`, a result once as many are made, and timeouts that
  -- start at `timeout` and grow by the backoff.
  abbrev IsBounded : ℕ → ℕ → List (Attempt D) → Retried D → Type 0
  IsBounded left timeout tries r =
      (length r.timeouts ≤ left)
      × (left ≤ length tries → is_some r.result ≡ true)
      × ((i t : ℕ) → get_elem? r.timeouts i ≡ some t → t ≡ timeout + i * o.backoff)

  returned-IsBounded :
      (left timeout : ℕ) (tries : List (Attempt D)) (err : Option (GoError D))
      → 0 < left
      → IsBounded left timeout tries (returned timeout err)
  unfolding returned
  returned-IsBounded left timeout tries err pos = (ground arith, λ h. refl, at)
    where
      at : (i t : ℕ) → get_elem? (timeout ∷ []) i ≡ some t → t ≡ timeout + i * o.backoff
      at zero t h = ground arith
      at (suc i) t h = cc

  again-IsBounded :
      (left timeout wait : ℕ) (a : Attempt D) (tries : List (Attempt D)) (r : Retried D)
      → IsBounded left (timeout + o.backoff) tries r
      → IsBounded (suc left) timeout (a ∷ tries) (again timeout wait r)
  unfolding again
  again-IsBounded left timeout wait a tries r (n, e, g) =
      (omega (arith, n), λ h. e (omega arith), at)
    where
      at : (i t : ℕ) → get_elem? (timeout ∷ r.timeouts) i ≡ some t → t ≡ timeout + i * o.backoff
      at zero t h = ground arith
      at (suc i) t h = g i t h ∙ grind arith

  retry_from-IsBounded :
      (tries : List (Attempt D)) (timeout attempt left : ℕ)
      → attempt + left ≡ o.max_attempts
      → IsBounded (suc left) timeout tries (retry_from (backoff_parameters o) tries timeout attempt)
  unfolding retry_from backoff_parameters after_error
  retry_from-IsBounded [] timeout attempt left e = (omega arith, λ h. ground arith, λ i t h. cc)
  retry_from-IsBounded (a ∷ tries) timeout attempt left e = elim (Option-cases a.error) [
    | inl n ↦ rw n (returned-IsBounded (suc left) timeout (a ∷ tries) none (omega arith))
    | inr (err, n) ↦
        elim (Bool-cases
          (not (recoverable o.is_recoverable err) || nat_beq attempt o.max_attempts)) [
            | inl b ↦
                rw (n, b)
                  (returned-IsBounded (suc left) timeout (a ∷ tries) (some err) (omega arith))
            | inr b ↦
                rw (n, b)
                  (elim (Bool-cases a.canceled) [
                    | inl c ↦ rw c (
                        returned-IsBounded (suc left) timeout (a ∷ tries)
                          (some err_request_canceled) (omega arith))
                    | inr c ↦ rw c (
                        let (l, q) =
                          more_left (not (recoverable o.is_recoverable err)) attempt o.max_attempts
                            left e b in
                        rw q (
                          again-IsBounded (suc l) timeout
                            (max 0 (no_subscriber_wait err a.wrapped_wait - a.elapsed)) a tries
                            (retry_from (backoff_parameters o) tries (timeout + o.backoff)
                              (attempt + 1))
                            (retry_from-IsBounded tries (timeout + o.backoff) (attempt + 1) l
                              (omega (arith, e, q)))))
                  ])
          ]
  ]

-- With the parameters of a backoff and at least one attempt allowed, retry makes no more attempts
-- than MaxAttempts, and has returned once it made as many; the timeout of each attempt is the first
-- one's plus a backoff for each attempt before it.
pub retry_is_bounded :
    {D : Type 0} (o : RetryOptions D) (tries : List (Attempt D))
    → o.get_retry_parameters ≡ none
    → 0 < o.max_attempts
    → (length (retry o tries).timeouts ≤ o.max_attempts)
      × (o.max_attempts ≤ length tries → is_some (retry o tries).result ≡ true)
      × ((i t : ℕ) → get_elem? (retry o tries).timeouts i ≡ some t → t ≡ o.timeout + i * o.backoff)
unfolding retry parameters
retry_is_bounded o tries plain pos =
    let (l, q) = more_left false 0 o.max_attempts o.max_attempts (omega arith) (ground arith) in
    let h = retry_from-IsBounded o tries o.timeout 1 l (omega (arith, q)) in
    let same : parameters o o.get_retry_parameters ≡ backoff_parameters o =
      ap (parameters o) plain in
    subst (λ f. IsBounded o o.max_attempts o.timeout tries (retry_from f tries o.timeout 1))
      (sym same)
      (subst
        (λ n. IsBounded o n o.timeout tries (retry_from (backoff_parameters o) tries o.timeout 1))
        (sym q) h)
