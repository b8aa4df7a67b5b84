-- ===== src/Info/Utf8.antt =====
-- The runes that `for _, r := range s` gives for a Go string: UTF-8, with 0xFFFD for every byte that
-- begins no well-formed sequence.
use psrpc.Base.{
  ℕ, ◌+◌, ◌-◌, ◌*◌, ◌<◌, ◌≡◌, refl, Bool, true, false, ◌&&◌, List, [], ◌∷◌, Text, if◌then◌else◌,
  leb, ltb, nat_beq, All, arith,
}

abbrev between : ℕ → ℕ → ℕ → Bool
between lo hi b = leb lo b && leb b hi

-- The least and the greatest second byte that may follow a first byte of three or four.
least_second : ℕ → ℕ
least_second a = if nat_beq a 0xE0 then 0xA0 else if nat_beq a 0xF0 then 0x90 else 0x80

greatest_second : ℕ → ℕ
greatest_second a = if nat_beq a 0xED then 0x9F else if nat_beq a 0xF4 then 0x8F else 0xBF

rune1 : ℕ → ℕ
rune1 a = if ltb a 0x80 then a else 0xFFFD

-- The rune of a two-byte sequence, and whether the bytes are one; so for three and four.
abbrev is2 : ℕ → ℕ → Bool
is2 a b = between 0xC2 0xDF a && between 0x80 0xBF b

is3 : ℕ → ℕ → ℕ → Bool
unfolding least_second greatest_second
is3 a b c =
    between 0xE0 0xEF a && (between (least_second a) (greatest_second a) b && between 0x80 0xBF c)

is4 : ℕ → ℕ → ℕ → ℕ → Bool
unfolding least_second greatest_second
is4 a b c d =
    between 0xF0 0xF4 a
    && (between (least_second a) (greatest_second a) b
        && (between 0x80 0xBF c && between 0x80 0xBF d))

rune2 : ℕ → ℕ → ℕ
rune2 a b = (a - 0xC0) * 64 + (b - 0x80)

rune3 : ℕ → ℕ → ℕ → ℕ
rune3 a b c = (a - 0xE0) * 4096 + (b - 0x80) * 64 + (c - 0x80)

rune4 : ℕ → ℕ → ℕ → ℕ → ℕ
rune4 a b c d = (a - 0xF0) * 262144 + (b - 0x80) * 4096 + (c - 0x80) * 64 + (d - 0x80)

unfoldable pub runes : Text → List ℕ
unfolding rune1 rune2 rune3 rune4 is3 is4
runes [] = []
runes (a ∷ []) = rune1 a ∷ []
runes (a ∷ b ∷ []) = let one = rune1 a ∷ runes (b ∷ []) in if is2 a b then rune2 a b ∷ [] else one
runes (a ∷ b ∷ c ∷ []) =
    let one = rune1 a ∷ runes (b ∷ c ∷ []) in
    let two = rune2 a b ∷ runes (c ∷ []) in
    if is2 a b then two else if is3 a b c then rune3 a b c ∷ [] else one
runes (a ∷ b ∷ c ∷ d ∷ s) =
    let one = rune1 a ∷ runes (b ∷ c ∷ d ∷ s) in
    let two = rune2 a b ∷ runes (c ∷ d ∷ s) in
    let three = rune3 a b c ∷ runes (d ∷ s) in
    let four = rune4 a b c d ∷ runes s in
    if is2 a b then two else if is3 a b c then three else if is4 a b c d then four else one

abbrev pub IsRune : ℕ → Type 0
IsRune r = r < 0x110000

rune1-IsRune : (a : ℕ) → IsRune (rune1 a)
unfolding rune1
rune1-IsRune a = ground arith

rune2-IsRune : (a b : ℕ) → is2 a b ≡ true → IsRune (rune2 a b)
unfolding rune2
rune2-IsRune a b h = ground arith

rune3-IsRune : (a b c : ℕ) → is3 a b c ≡ true → IsRune (rune3 a b c)
unfolding rune3 is3
rune3-IsRune a b c h = ground arith

rune4-IsRune : (a b c d : ℕ) → is4 a b c d ≡ true → IsRune (rune4 a b c d)
unfolding rune4 is4
rune4-IsRune a b c d h = ground arith

All-if :
    (b : Bool) (x y : List ℕ)
    → (b ≡ true → All IsRune x)
    → All IsRune y
    → All IsRune (if b then x else y)
All-if true x y h k = h refl
All-if false x y h k = k

-- What `range` gives are Unicode code points.
pub runes-IsRune : (s : Text) → All IsRune (runes s)
unfolding runes
runes-IsRune [] = tt
runes-IsRune (a ∷ []) = (rune1-IsRune a, tt)
runes-IsRune (a ∷ b ∷ []) =
    All-if (is2 a b) _ _ (λ h. (rune2-IsRune a b h, tt)) (rune1-IsRune a, runes-IsRune (b ∷ []))
runes-IsRune (a ∷ b ∷ c ∷ []) =
    All-if (is2 a b) _ _ (λ h. (rune2-IsRune a b h, runes-IsRune (c ∷ [])))
      (All-if (is3 a b c) _ _ (λ h. (rune3-IsRune a b c h, tt))
        (rune1-IsRune a, runes-IsRune (b ∷ c ∷ [])))
runes-IsRune (a ∷ b ∷ c ∷ d ∷ s) =
    All-if (is2 a b) _ _ (λ h. (rune2-IsRune a b h, runes-IsRune (c ∷ d ∷ s)))
      (All-if (is3 a b c) _ _ (λ h. (rune3-IsRune a b c h, runes-IsRune (d ∷ s)))
        (All-if (is4 a b c d) _ _ (λ h. (rune4-IsRune a b c d h, runes-IsRune s))
          (rune1-IsRune a, runes-IsRune (b ∷ c ∷ d ∷ s))))
