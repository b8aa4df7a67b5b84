-- ===== src/Client/Select/Scores.antt =====
-- What selection uses of Go's float32: zero and the two comparisons. The laws are those of IEEE `<`,
-- which hold of NaN too: no number is below itself, and `<` is transitive.
use psrpc.Base.{ℕ, ◌≡◌, Bool, true, false, ltb, leb, arith}

pub record Floats (F : Type 0) : Type 0 where
  pub zero : F
  pub lt : F → F → Bool
  pub le : F → F → Bool

pub record IsStrict {F : Type 0} (fl : Floats F) : Type 0 where
  pub lt_irrefl : (a : F) → fl.lt a a ≡ false
  pub lt_trans : (a b c : F) → fl.lt a b ≡ true → fl.lt b c ≡ true → fl.lt a c ≡ true

-- Whole numbers in the place of floats, for runs.
abbrev pub whole : Floats ℕ
whole = record { zero = 0; lt = ltb; le = leb }

pub whole-IsStrict : IsStrict whole
whole-IsStrict = record { lt_irrefl = λ a. ground arith; lt_trans = λ a b c h k. ground arith }
