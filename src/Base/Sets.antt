-- ===== src/Base/Sets.antt =====
-- Go's `map[string]struct{}`: finite sets of texts, by their members.
use mathlib.Core.Path.{◌≡◌, refl}
use mathlib.Core.Bool.{Bool, false, ◌&&◌, ◌||◌}
use mathlib.Core.List.{List, [], ◌∷◌}
use native.Mathlib.Omega.{arith}
use psrpc.Base.Tests.{if◌then◌else◌}
use psrpc.Base.Eq.{Text, list_beq, text_eq_iff}

unfoldable pub has : List Text → Text → Bool
has [] c = false
has (x ∷ xs) c = list_beq x c || has xs c

unfoldable pub add : List Text → Text → List Text
unfolding has
add xs c = if has xs c then xs else c ∷ xs

-- `maps.Copy(xs, ys)`.
unfoldable pub copy_into : List Text → List Text → List Text
unfolding add
copy_into xs [] = xs
copy_into xs (y ∷ ys) = add (copy_into xs ys) y

-- The members that pass a test.
unfoldable pub keep : (Text → Bool) → List Text → List Text
keep p [] = []
keep p (x ∷ xs) = if p x then x ∷ keep p xs else keep p xs

pub has-add : (xs : List Text) (c d : Text) → has (add xs c) d ≡ (list_beq c d || has xs d)
unfolding add has
has-add xs c d = ground (arith, text_eq_iff c d)

pub has-copy_into :
    (xs ys : List Text) (d : Text) → has (copy_into xs ys) d ≡ (has ys d || has xs d)
unfolding copy_into has
has-copy_into xs [] d = refl
has-copy_into xs (y ∷ ys) d = ground (arith, has-add (copy_into xs ys) y d, has-copy_into xs ys d)

pub has-keep : (p : Text → Bool) (xs : List Text) (d : Text) → has (keep p xs) d ≡ (p d && has xs d)
unfolding keep has
has-keep p [] d = ground arith
has-keep p (x ∷ xs) d = ground (arith, text_eq_iff x d, has-keep p xs d)
