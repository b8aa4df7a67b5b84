-- ===== src/Base/Removal.antt =====
-- `slices.Index` followed by `slices.Delete`, on identities.
use Prim.Native.Nat.{ℕ}
use mathlib.Core.List.{List, [], ◌∷◌}
use mathlib.Core.Option.{Option, none, some}
use psrpc.Base.Tests.{if◌then◌else◌}
use psrpc.Base.Eq.{nat_beq}

cons_to : ℕ → Option (List ℕ) → Option (List ℕ)
cons_to s none = none
cons_to s (some ss) = some (s ∷ ss)

-- slices.Index, and the list without its first such element.
unfoldable pub remove_first : List ℕ → ℕ → Option (List ℕ)
unfolding cons_to
remove_first [] sub = none
remove_first (s ∷ ss) sub = if nat_beq s sub then some ss else cons_to s (remove_first ss sub)
