-- ===== src/Interceptors/Tests.antt =====
-- Runs of chains: handlers note the requests that they get.
use psrpc.Interceptors.Nesting.{once_returns, once_calls, chain_is_nested, chained, nested}
use psrpc.Interceptors.Chain.{chain_server, returns, calls, Interceptor}
use psrpc.Base.{◌*◌, ◌+◌, ◌*◌, ◌++◌, suc, ℕ, ◌≡◌, refl, List, [], ◌∷◌, Option, some}

-- The handler notes its request and answers with the next number.
unfoldable note : ℕ → List ℕ → Option (ℕ × List ℕ)
note q seen = some (suc q, seen ++ q ∷ [])

abbrev doubling : Interceptor ℕ ℕ
doubling q = calls (q * 2) (λ r. returns (r * 2))

abbrev adding : Interceptor ℕ ℕ
adding q = calls (q + 10) (λ r. returns (r + 1))

abbrev refusing : Interceptor ℕ ℕ
refusing q = returns 0

-- It calls its handler again with the same request.
abbrev retrying : Interceptor ℕ ℕ
retrying q = calls q (λ r. calls q (λ r. returns r))

doubling_first : chained (doubling ∷ adding ∷ []) note 3 [] ≡ some (36, 16 ∷ [])
unfolding chained chain_server note
doubling_first = refl

refused : chained (doubling ∷ refusing ∷ adding ∷ []) note 3 [] ≡ some (0, [])
unfolding chained chain_server
refused = refl

-- The second call of an interceptor goes past the one after it: the counter stands at the last.
second_call_skips : chained (retrying ∷ doubling ∷ adding ∷ []) note 3 [] ≡ some (15, 16 ∷ 13 ∷ [])
unfolding chained chain_server note
second_call_skips = refl

-- Nested, it would not.
nested_calls_do_not : nested (retrying ∷ doubling ∷ adding ∷ []) note 3 [] ≡ some (36, 16 ∷ 16 ∷ [])
unfolding nested note
nested_calls_do_not = refl

chain_is_nested_example :
    chained (doubling ∷ refusing ∷ adding ∷ []) note 3 []
    ≡ nested (doubling ∷ refusing ∷ adding ∷ []) note 3 []
chain_is_nested_example = chain_is_nested (doubling ∷ refusing ∷ adding ∷ []) note 3 [] (
  (λ q. once_calls (q * 2) (λ r. r * 2)),
  ((λ q. once_returns 0), ((λ q. once_calls (q + 10) (λ r. r + 1)), tt)),
)
