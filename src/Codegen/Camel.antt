-- ===== src/Codegen/Camel.antt =====
-- CamelCase leaves alone what it made.
use psrpc.Base.{
  subst, ℕ, ◌-◌, ◌≡◌, refl, sym, ◌∙◌, Bool, true, false, ◌&&◌, [], ◌∷◌, Text, if◌then◌else◌,
  nat_beq, arith, Bool-cases, inl, inr,
}
use psrpc.Codegen.Names.{
  underscore, is_ascii_lower, is_ascii_digit, next_is_lower, camel_from, camel_case,
}

-- What the loop leaves as it is: a lower case letter only after a letter, and none after an
-- underscore.
unfoldable pub camelled : Bool → Text → Bool
camelled within [] = true
camelled within (c ∷ s) =
    let after_capital = camelled true s in
    let after_other = camelled false s in
    if is_ascii_lower c
    then within && after_capital
    else if nat_beq c underscore
    then after_other
    else if is_ascii_digit c
    then after_other
    else after_capital

-- Before what is no lower case letter, it makes no difference that the loop is within a word.
within_or_not : (s : Text) → next_is_lower s ≡ false → camel_from true s ≡ camel_from false s
unfolding camel_from
within_or_not [] h = refl
within_or_not (c ∷ s) h = rw h refl

starts_no_word : (t : Text) → camelled false t ≡ true → next_is_lower t ≡ false
unfolding camelled
starts_no_word [] h = refl
starts_no_word (c ∷ t) h = elim (Bool-cases (is_ascii_lower c)) [
  | inl y ↦ ground (arith, h, y)
  | inr y ↦ y
]

-- The loop leaves as it is what is camelled.
camel_from-camelled : (w : Bool) (t : Text) → camelled w t ≡ true → camel_from w t ≡ t
unfolding camel_from camelled
camel_from-camelled w [] h = refl
camel_from-camelled w (c ∷ t) h = elim (Bool-cases (is_ascii_lower c)) [
  | inl y ↦ ground (arith, h, y, camel_from-camelled true t)
  | inr y ↦ elim (Bool-cases (nat_beq c underscore)) [
    | inl u ↦
        ground (arith, h, y, u, starts_no_word t, within_or_not t, camel_from-camelled false t)
    | inr u ↦ ground (arith, h, y, u, camel_from-camelled false t, camel_from-camelled true t)
  ]
]

-- The capital of a lower case letter is a letter, and no lower case one.
capital_is_other :
    (c : ℕ)
    → is_ascii_lower c ≡ true
    → (is_ascii_lower (c - 32) ≡ false)
      × (nat_beq (c - 32) underscore ≡ false)
      × (is_ascii_digit (c - 32) ≡ false)
capital_is_other c h = (ground arith, ground arith, ground arith)

-- What it makes is camelled.
camelled-camel_from : (w : Bool) (s : Text) → camelled w (camel_from w s) ≡ true
unfolding camel_from camelled
camelled-camel_from w [] = refl
camelled-camel_from w (c ∷ s) = elim (Bool-cases (is_ascii_lower c)) [
  | inl y ↦ ground (arith, y, capital_is_other c y, camelled-camel_from true s)
  | inr y ↦ elim (Bool-cases (nat_beq c underscore)) [
    | inl u ↦ ground (arith, y, u, within_or_not s, camelled-camel_from false s)
    | inr u ↦ ground (arith, y, u, camelled-camel_from false s, camelled-camel_from true s)
  ]
]

camelled-within : (t : Text) → camelled false t ≡ true → camelled true t ≡ true
unfolding camelled
camelled-within [] h = refl
camelled-within (c ∷ t) h = ground (arith, h)

abbrev starts_with_underscore : Text → Bool
starts_with_underscore [] = false
starts_with_underscore (c ∷ s) = nat_beq c underscore

with_x :
    (c : ℕ) (s : Text) → nat_beq c underscore ≡ true → camel_case (c ∷ s) ≡ 88 ∷ camel_from false s
with_x c s u = unfold camel_case in rw u refl

without_x :
    (c : ℕ) (s : Text)
    → nat_beq c underscore ≡ false
    → camel_case (c ∷ s) ≡ camel_from false (c ∷ s)
without_x c s u = unfold camel_case in rw u refl

settled : (t : Text) → camelled false t ≡ true → starts_with_underscore t ≡ false → camel_case t ≡ t
settled [] h u = unfold camel_case in refl
settled (c ∷ t) h u = without_x c t u ∙ camel_from-camelled false (c ∷ t) h

first_of_loop :
    (c : ℕ) (s : Text)
    → nat_beq c underscore ≡ false
    → starts_with_underscore (camel_from false (c ∷ s)) ≡ false
unfolding camel_from
first_of_loop c s u = elim (Bool-cases (is_ascii_lower c)) [
  | inl y ↦ ground (arith, u, y, capital_is_other c y)
  | inr y ↦ ground (arith, u, y)
]

after_x : (s : Text) → camelled false (88 ∷ camel_from false s) ≡ true
unfolding camelled
after_x s = camelled-within (camel_from false s) (camelled-camel_from false s)

-- CamelCase, applied to its own result, changes nothing.
pub camel_case_idempotent : (s : Text) → camel_case (camel_case s) ≡ camel_case s
camel_case_idempotent [] = unfold camel_case in refl
camel_case_idempotent (c ∷ s) = elim (Bool-cases (nat_beq c underscore)) [
  | inl u ↦
      subst (λ t. camel_case t ≡ t) (sym (with_x c s u))
        (settled (88 ∷ camel_from false s) (after_x s) refl)
  | inr u ↦
      subst (λ t. camel_case t ≡ t) (sym (without_x c s u))
        (settled (camel_from false (c ∷ s)) (camelled-camel_from false (c ∷ s))
          (first_of_loop c s u))
]
