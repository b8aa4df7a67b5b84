-- ===== src/Codegen/Texts.antt =====
-- What the generator uses of Go's strings package, on bytes.
use psrpc.Base.{
  ℕ, ◌≡◌, refl, ap, ◌∙◌, List, [], ◌∷◌, Option, none, some, Text, if◌then◌else◌, nat_beq,
  Bool-cases, inl, inr,
}

abbrev add_front : ℕ → Option (Text × Text) → Option (Text × Text)
add_front x none = none
add_front x (some (a, b)) = some (x ∷ a, b)

-- What stands before and after the first such byte, where Go slices at strings.Index.
unfoldable pub cut_first : ℕ → Text → Option (Text × Text)
cut_first c [] = none
cut_first c (x ∷ xs) = if nat_beq x c then some ([], xs) else add_front x (cut_first c xs)

abbrev or_here : ℕ → ℕ → Text → Option (Text × Text) → Option (Text × Text)
or_here c x xs none = if nat_beq x c then some ([], xs) else none
or_here c x xs (some (a, b)) = some (x ∷ a, b)

-- And the last, at strings.LastIndex.
unfoldable pub cut_last : ℕ → Text → Option (Text × Text)
cut_last c [] = none
cut_last c (x ∷ xs) = or_here c x xs (cut_last c xs)

abbrev into_first : ℕ → List Text → List Text
into_first x [] = (x ∷ []) ∷ []
into_first x (w ∷ ws) = (x ∷ w) ∷ ws

-- strings.Split at one byte.
unfoldable pub split : ℕ → Text → List Text
split c [] = [] ∷ []
split c (x ∷ xs) = if nat_beq x c then [] ∷ split c xs else into_first x (split c xs)

-- A text without the byte is one part; otherwise the first part ends at the first such byte.
abbrev pub parts_from : ℕ → Text → Option (Text × Text) → List Text
parts_from c s none = s ∷ []
parts_from c s (some (a, b)) = a ∷ split c b

pub split-cut_first : (c : ℕ) (s : Text) → split c s ≡ parts_from c s (cut_first c s)
unfolding split cut_first
split-cut_first c [] = refl
split-cut_first c (x ∷ xs) = elim (Bool-cases (nat_beq x c)) [
  | inl y ↦ rw y refl
  | inr y ↦ rw y (ap (into_first x) (split-cut_first c xs) ∙ moved (cut_first c xs))
]
  where
    moved :
        (o : Option (Text × Text))
        → into_first x (parts_from c xs o) ≡ parts_from c (x ∷ xs) (add_front x o)
    moved none = refl
    moved (some (a, b)) = refl
