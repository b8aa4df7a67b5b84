-- ===== src/Interceptors/Nesting.antt =====
-- Chains are the interceptors nested in their order.
use psrpc.Base.{
  take, ℕ, zero, suc, ◌-◌, ◌≡◌, refl, sym, ap, ◌∙◌, true, false, List, [], ◌∷◌, ◌++◌, Option, none,
  some, length, get_elem?, nat_beq, All, arith, length-append, append_assoc,
}
use psrpc.Interceptors.Chain.{
  chain_loop, wrapped, chain_client, Program, returns, calls, Interceptor, Handler, with_answer,
  beside, without_counter, run, keeping, intercept, next, chain_server,
}

-- The description: the first interceptor gets the others round the handler.
unfoldable pub nested : {Q R S : Type 0} → List (Interceptor Q R) → Handler Q R S → Handler Q R S
unfolding run
nested [] handler q s = handler q s
nested (f ∷ fs) handler q s = run (f q) (nested fs handler) s

-- A program that calls its handler once at most, and returns what it makes of the answer.
pub data Once {Q R : Type 0} : Program Q R → Type 0 where
  once_returns : (r : R) → Once (returns r)
  once_calls : (q : Q) (g : R → R) → Once (calls q (λ r. returns (g r)))

abbrev pub CallsOnce : {Q R : Type 0} → Interceptor Q R → Type 0
CallsOnce {Q} f = (q : Q) → Once (f q)

answered :
    {R S : Type 0} (g : R → R) (o : Option (R × (ℕ × S)))
    → without_counter (with_answer (λ r t. some (g r, t)) o)
      ≡ with_answer (λ r t. some (g r, t)) (without_counter o)
answered g none = refl
answered g (some a) = refl

beside-without : {R S : Type 0} (i : ℕ) (o : Option (R × S)) → without_counter (beside i o) ≡ o
beside-without i none = refl
beside-without i (some a) = refl

get-at :
    {A : Type 0} (front : List A) (x : A) (back : List A)
    → get_elem? (front ++ x ∷ back) (length front) ≡ some x
get-at [] x back = refl
get-at (a ∷ front) x back = get-at front x back

module _ {Q R S : Type 0} where
  -- The counter makes no difference to a program that calls once.
  run-without :
      {p : Program Q R} (inner : Handler Q R (ℕ × S)) (handler : Handler Q R S) (i : ℕ) (s : S)
      → Once p
      → ((q : Q) → without_counter (inner q (i, s)) ≡ handler q s)
      → without_counter (run p inner (i, s)) ≡ run p handler s
  unfolding run
  run-without inner handler i s (once_returns r) h = refl
  run-without inner handler i s (once_calls q g) h =
      answered g (inner q (i, s)) ∙ ap (with_answer (λ r t. some (g r, t))) (h q)

  -- What is left of the chain when the counter stands at its first interceptor.
  next-nested :
      (interceptors front : List (Interceptor Q R)) (f : Interceptor Q R)
      (fs : List (Interceptor Q R)) (i : ℕ) (handler : Handler Q R S) (q : Q) (s : S)
      → interceptors ≡ front ++ f ∷ fs
      → i ≡ length front
      → All CallsOnce (f ∷ fs)
      → without_counter (next interceptors handler (suc (length fs)) q (i, s))
        ≡ nested (f ∷ fs) handler q s
  unfolding next nested intercept
  next-nested interceptors front f [] i handler q s e l o =
      rw (at_last, at_front)
        (run-without (keeping interceptors handler) handler i s (o.0 q)
          (λ p. unfold keeping in beside-without i (handler p s)))
    where
      at_last : nat_beq i (length interceptors - 1) ≡ true
      at_last = ground (arith, ap length e, l, length-append front (f ∷ []))

      at_front : get_elem? interceptors i ≡ some f
      at_front = rw (e, l) (get-at front f [])
  next-nested interceptors front f (g ∷ fs) i handler q s e l o =
      rw (not_last, at_front)
        (run-without (next interceptors handler (suc (length fs))) (nested (g ∷ fs) handler) (suc i)
          s (o.0 q)
          (λ p.
            next-nested interceptors (front ++ f ∷ []) g fs (suc i) handler p s
              (e ∙ sym (append_assoc front (f ∷ []) (g ∷ fs))) next_front o.1))
    where
      not_last : nat_beq i (length interceptors - 1) ≡ false
      not_last = ground (arith, ap length e, l, length-append front (f ∷ g ∷ fs))

      at_front : get_elem? interceptors i ≡ some f
      at_front = rw (e, l) (get-at front f (g ∷ fs))

      next_front : suc i ≡ length (front ++ f ∷ [])
      next_front = omega (arith, l, length-append front (f ∷ []))

  -- What a chain does: nothing is put round the handler of an empty one.
  unfoldable pub chained : List (Interceptor Q R) → Handler Q R S → Handler Q R S
  chained interceptors handler = or_handler (chain_server interceptors)
    where
      or_handler : Option (Handler Q R S → Handler Q R S) → Handler Q R S
      or_handler none = handler
      or_handler (some chain) = chain handler

  -- A chain of interceptors, each of which calls its handler once at most, is the interceptors nested
  -- in their order: it always has a result where the handler has one, the same.
  pub chain_is_nested :
      (interceptors : List (Interceptor Q R)) (handler : Handler Q R S) (q : Q) (s : S)
      → All CallsOnce interceptors
      → chained interceptors handler q s ≡ nested interceptors handler q s
  unfolding chained chain_server nested
  chain_is_nested [] handler q s o = refl
  chain_is_nested (f ∷ []) handler q s o = refl
  chain_is_nested (f ∷ g ∷ fs) handler q s o =
      next-nested (f ∷ g ∷ fs) [] f (g ∷ fs) 0 handler q s refl refl o

-- A client's chain: each function wraps what the later ones made.
unfoldable pub nested_client {ℓ} : {H : Type ℓ} → List (H → H) → H → H
nested_client [] handler = handler
nested_client (f ∷ fs) handler = f (nested_client fs handler)

take-length : {A : Type 0} (xs : List A) → take (length xs) xs ≡ xs
take-length [] = refl
take-length (x ∷ xs) = ap (λ ys. x ∷ ys) (take-length xs)

module _ {H : Type 0} where
  nested_client-take :
      (fs : List (H → H)) (i : ℕ) (handler : H)
      → nested_client (take i fs) (wrapped (get_elem? fs i) handler)
        ≡ nested_client (take (suc i) fs) handler
  unfolding nested_client wrapped
  nested_client-take [] zero handler = refl
  nested_client-take [] (suc i) handler = refl
  nested_client-take (f ∷ fs) zero handler = refl
  nested_client-take (f ∷ fs) (suc i) handler = ap f (nested_client-take fs i handler)

  loop-nested :
      (fs : List (H → H)) (i : ℕ) (handler : H)
      → chain_loop fs i handler ≡ nested_client (take i fs) handler
  unfolding chain_loop nested_client
  loop-nested fs zero handler = refl
  loop-nested fs (suc i) handler =
      loop-nested fs i (wrapped (get_elem? fs i) handler) ∙ nested_client-take fs i handler

  -- The loop that goes backwards over a client's interceptors, or those of the test bus, leaves the
  -- handler that the first of them makes of what the second makes, and so on.
  pub client_chain_is_nested :
      (fs : List (H → H)) (handler : H) → chain_client fs handler ≡ nested_client fs handler
  unfolding chain_client
  client_chain_is_nested fs handler =
      loop-nested fs (length fs) handler ∙ ap (λ gs. nested_client gs handler) (take-length fs)
