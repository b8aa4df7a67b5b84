-- ===== src/Base/Assoc.antt =====
-- Go maps as association lists over keys with a Boolean equality. A key stands at most once in what
-- `insert` builds; `delete` removes every entry of a key, so the laws hold of any list.
use mathlib.Core.Path.{◌≡◌, refl}
use mathlib.Core.List.{List, [], ◌∷◌}
use mathlib.Core.Option.{Option, none, some}
use native.Mathlib.Omega.{arith}
use psrpc.Base.Tests.{if◌then◌else◌}
use psrpc.Base.Eq.{Comparable}

module _ {ℓ κ} {K : Type ℓ} {V : Type κ} ⦃key : Comparable K⦄ where
  unfoldable pub lookup : List (K × V) → K → Option V
  lookup [] k = none
  lookup ((j, v) ∷ m) k = if key.same j k then some v else lookup m k

  unfoldable pub insert : List (K × V) → K → V → List (K × V)
  insert [] k v = (k, v) ∷ []
  insert ((j, w) ∷ m) k v = if key.same j k then (k, v) ∷ m else (j, w) ∷ insert m k v

  unfoldable pub delete : List (K × V) → K → List (K × V)
  delete [] k = []
  delete ((j, w) ∷ m) k = let rest = delete m k in if key.same j k then rest else (j, w) ∷ rest

  pub lookup-insert :
      (m : List (K × V)) (k : K) (v : V) (j : K)
      → lookup (insert m k v) j ≡ (if key.same k j then some v else lookup m j)
  unfolding lookup insert
  lookup-insert [] k v j = refl
  lookup-insert ((i, w) ∷ m) k v j =
      ground (arith, key.same_iff k j, key.same_iff i k, key.same_iff i j, lookup-insert m k v j)

  pub lookup-delete :
      (m : List (K × V)) (k j : K)
      → lookup (delete m k) j ≡ (if key.same k j then none else lookup m j)
  unfolding lookup delete
  lookup-delete [] k j = ground arith
  lookup-delete ((i, w) ∷ m) k j =
      ground (arith, key.same_iff k j, key.same_iff i k, key.same_iff i j, lookup-delete m k j)

  -- A key that was not there, put in and taken out again.
  pub lookup-delete-insert :
      (m : List (K × V)) (k : K) (v : V) (j : K)
      → lookup m k ≡ none
      → lookup (delete (insert m k v) k) j ≡ lookup m j
  lookup-delete-insert m k v j h =
      ground (arith, lookup-delete (insert m k v) k j, lookup-insert m k v j, key.same_iff k j)
