-- ===== src/Interceptors/Chain.antt =====
-- interceptor.go: the loops that chain interceptors. What a server's interceptor does with its
-- handler is a program: it returns, or calls the handler and goes on with the answer.
use psrpc.Base.{
  ℕ, zero, suc, ◌-◌, List, [], ◌∷◌, Option, none, some, if◌then◌else◌, length, get_elem?, nat_beq,
}

-- `for i := len(interceptors) - 1; i >= 0; i-- { handler = interceptors[i](handler) }`, where the
-- last steps are those of the first interceptors.
module _ {ℓ} {H : Type ℓ} where
  unfoldable pub wrapped : Option (H → H) → H → H
  wrapped none handler = handler
  wrapped (some f) handler = f handler

  unfoldable pub chain_loop : List (H → H) → ℕ → H → H
  unfolding wrapped
  chain_loop interceptors zero handler = handler
  chain_loop interceptors (suc i) handler =
      chain_loop interceptors i (wrapped (get_elem? interceptors i) handler)

  -- ChainClientInterceptors, and the loops of the test bus.
  unfoldable pub chain_client : List (H → H) → H → H
  unfolding chain_loop
  chain_client interceptors handler = chain_loop interceptors (length interceptors) handler

-- Q are requests, R what a handler returns.
pub data Program (Q R : Type 0) : Type 0 where
  returns : R → Program Q R
  calls : Q → (R → Program Q R) → Program Q R

-- An interceptor, for a fixed context and RPCInfo; and a handler, with what it changes.
abbrev pub Interceptor : Type 0 → Type 0 → Type 0
Interceptor Q R = Q → Program Q R

abbrev pub Handler : Type 0 → Type 0 → Type 0 → Type 0
Handler Q R S = Q → S → Option (R × S)

abbrev pub with_answer : {R S : Type 0} → (R → S → Option (R × S)) → Option (R × S) → Option (R × S)
with_answer rest none = none
with_answer rest (some a) = rest a.0 a.1

-- A counter beside what a handler changes.
abbrev pub beside : {R S : Type 0} → ℕ → Option (R × S) → Option (R × (ℕ × S))
beside i none = none
beside i (some a) = some (a.0, (i, a.1))

abbrev pub without_counter : {R S : Type 0} → Option (R × (ℕ × S)) → Option (R × S)
without_counter none = none
without_counter (some a) = some (a.0, a.1.1)

-- The program with a handler.
unfoldable pub run : {Q R S : Type 0} → Program Q R → Handler Q R S → S → Option (R × S)
run (returns r) handler s = some (r, s)
run (calls q k) handler s = with_answer (λ r t. run (k r) handler t) (handler q s)

module _ {Q R S : Type 0} (interceptors : List (Interceptor Q R)) (handler : Handler Q R S) where
  unfoldable pub keeping : Handler Q R (ℕ × S)
  keeping q t = beside t.0 (handler q t.1)

  unfoldable pub intercept :
      Option (Interceptor Q R) → Q → Handler Q R (ℕ × S) → ℕ × S → Option (R × (ℕ × S))
  unfolding run
  intercept none q inner t = none
  intercept (some f) q inner t = run (f q) inner t

  -- state.next, with the counter `state.i` beside what the handler changes. The fuel bounds how deep
  -- the calls nest; out of it there is no result.
  unfoldable pub next : ℕ → Q → ℕ × S → Option (R × (ℕ × S))
  unfolding keeping intercept
  next zero q t = none
  next (suc fuel) q t =
      let inner = next fuel in
      if nat_beq t.0 (length interceptors - 1)
      then intercept (get_elem? interceptors t.0) q keeping t
      else intercept (get_elem? interceptors t.0) q inner (suc t.0, t.1)

-- ChainServerInterceptors: no interceptor, the only one, or the one that starts the counter.
unfoldable pub chain_server :
    {Q R S : Type 0} → List (Interceptor Q R) → Option (Handler Q R S → Handler Q R S)
unfolding next
chain_server [] = none
chain_server (f ∷ []) = some (λ handler q s. run (f q) handler s)
chain_server (f ∷ g ∷ fs) =
    some (λ handler q s. without_counter (next (f ∷ g ∷ fs) handler (length (f ∷ g ∷ fs)) q (0, s)))
