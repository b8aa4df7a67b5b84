-- ===== src/Base/Results.antt =====
-- Results of code that may fail.
use mathlib.Core.Path.{◌≡◌}
use mathlib.Core.Option.{some}

-- Go's `(value, error)`, where exactly one of the two is used.
pub data Result (E A : Type 0) : Type 0 where
  ok : A → Result E A
  failed : E → Result E A

pub some-injective {ℓ} : {A : Type ℓ} {a b : A} → some a ≡ some b → a ≡ b
some-injective h = cc
