-- ===== src/Info/Sanitize.antt =====
-- What the escaping of channel parts keeps apart, and which characters it leaves.
use psrpc.Base.{
  ℕ, suc, zero, ◌+◌, ◌-◌, ◌/◌, ◌%◌, ◌^◌, ◌≤◌, ◌<◌, ◌≡◌, ◌≢◌, refl, sym, ◌∙◌, ap, Bool, true, false,
  ◌&&◌, ◌||◌, List, [], ◌∷◌, ◌++◌, append_assoc, append-nil, Text, if◌then◌else◌, ltb, nat_beq,
  nat_beq_iff, All, All-append, arith, Bool-cases, inl, inr,
}
use psrpc.Info.Utf8.{runes, IsRune, runes-IsRune}
use psrpc.Info.Channels.{
  is_channel_char, hex_digit, sanitize_rune, append_runes, append_sanitized_channel_part,
}

encode : List ℕ → Text
encode [] = []
encode (r ∷ rs) = sanitize_rune r ++ encode rs

append_runes-encode : (buf : Text) (rs : List ℕ) → append_runes buf rs ≡ buf ++ encode rs
unfolding append_runes encode
append_runes-encode buf [] = sym (append-nil buf)
append_runes-encode buf (r ∷ rs) =
    append_runes-encode (buf ++ sanitize_rune r) rs ∙ append_assoc buf (sanitize_rune r) (encode rs)

-- Digits are read back.
hex_value : ℕ → ℕ
hex_value c = if ltb c b'a' then c - b'0' else c - b'a' + 10

-- A test of every number under a bound.
each_under : (ℕ → Bool) → ℕ → Bool
each_under test zero = true
each_under test (suc top) = each_under test top && test top

each_under_at :
    (test : ℕ → Bool) (top digit : ℕ) → digit < top → each_under test top ≡ true → test digit ≡ true
unfolding each_under
each_under_at test zero digit low passed = absurd (omega arith)
each_under_at test (suc top) digit low passed = ground (arith, each_under_at test top digit)

digits_table : each_under (λ d. nat_beq (hex_value (hex_digit d 0)) d) 16 ≡ true
unfolding each_under hex_value hex_digit
digits_table = refl

hex_digit_mod : (r s : ℕ) → hex_digit r s ≡ hex_digit (r / 2 ^ s % 16) 0
unfolding hex_digit
hex_digit_mod r s = ground (arith)

hex_value-hex_digit : (r s : ℕ) → hex_value (hex_digit r s) ≡ r / 2 ^ s % 16
hex_value-hex_digit r s =
    ap hex_value (hex_digit_mod r s)
    ∙ (nat_beq_iff _ _).0 (
        each_under_at (λ d. nat_beq (hex_value (hex_digit d 0)) d) 16 (r / 2 ^ s % 16) (omega arith)
          digits_table)

starts_plus : Text → Bool
starts_plus [] = false
starts_plus (c ∷ s) = nat_beq c b'+'

-- Equal digits come from equal places.
place : (r q s : ℕ) → hex_digit r s ≡ hex_digit q s → r / 2 ^ s % 16 ≡ q / 2 ^ s % 16
place r q s e = sym (hex_value-hex_digit r s) ∙ ap hex_value e ∙ hex_value-hex_digit q s

abbrev low_digits : ℕ → Text
low_digits r = hex_digit r 12 ∷ hex_digit r 8 ∷ hex_digit r 4 ∷ hex_digit r 0 ∷ []

abbrev high_digits : ℕ → Text
high_digits r = hex_digit r 28 ∷ hex_digit r 24 ∷ hex_digit r 20 ∷ hex_digit r 16 ∷ []

low_places : (r q : ℕ) → low_digits r ≡ low_digits q → r % 65536 ≡ q % 65536
low_places r q e =
    let a : hex_digit r 12 ≡ hex_digit q 12 = cc in
    let b : hex_digit r 8 ≡ hex_digit q 8 = cc in
    let c : hex_digit r 4 ≡ hex_digit q 4 = cc in
    let d : hex_digit r 0 ≡ hex_digit q 0 = cc in
    omega (arith, place r q 12 a, place r q 8 b, place r q 4 c, place r q 0 d)

high_places :
    (r q : ℕ)
    → r < 0x100000000
    → q < 0x100000000
    → high_digits r ≡ high_digits q
    → r / 65536 ≡ q / 65536
high_places r q hr hq e =
    let a : hex_digit r 28 ≡ hex_digit q 28 = cc in
    let b : hex_digit r 24 ≡ hex_digit q 24 = cc in
    let c : hex_digit r 20 ≡ hex_digit q 20 = cc in
    let d : hex_digit r 16 ≡ hex_digit q 16 = cc in
    omega (arith, place r q 28 a, place r q 24 b, place r q 20 c, place r q 16 d)

-- The three forms of an escaped rune.
data Form (r : ℕ) (t : Text) : Type 0 where
  plain : is_channel_char r ≡ true → t ≡ r ∷ [] → Form r t
  short : r < 65536 → t ≡ b'u' ∷ b'+' ∷ low_digits r → Form r t
  long : 65536 ≤ r → t ≡ b'U' ∷ b'+' ∷ (high_digits r ++ low_digits r) → Form r t

form : (r : ℕ) → Form r (sanitize_rune r)
unfolding sanitize_rune
form r = elim (Bool-cases (is_channel_char r)) [
  | inl e ↦ plain e (rw e)
  | inr e ↦ elim (Bool-cases (ltb r 0x10000)) [
    | inl l ↦ short (ground arith) (rw (e, l))
    | inr l ↦ long (ground arith) (rw (e, l))
  ]
]

peel_forms :
    (r q : ℕ) (s t x y : Text)
    → IsRune r
    → IsRune q
    → starts_plus x ≡ false
    → starts_plus y ≡ false
    → Form r s
    → Form q t
    → s ++ x ≡ t ++ y
    → (r ≡ q) × (x ≡ y)
unfolding starts_plus is_channel_char
peel_forms r q s t x y hr hq px py (plain a b) (plain c d) e = ground arith
peel_forms r q s t x y hr hq px py (plain a b) (short c d) e = ground arith
peel_forms r q s t x y hr hq px py (plain a b) (long c d) e = ground arith
peel_forms r q s t x y hr hq px py (short a b) (plain c d) e = ground arith
peel_forms r q s t x y hr hq px py (short a b) (short c d) e =
    let k : low_digits r ≡ low_digits q = ground arith in
    (omega (arith, low_places r q k), ground arith)
peel_forms r q s t x y hr hq px py (short a b) (long c d) e = ground arith
peel_forms r q s t x y hr hq px py (long a b) (plain c d) e = ground arith
peel_forms r q s t x y hr hq px py (long a b) (short c d) e = ground arith
peel_forms r q s t x y hr hq px py (long a b) (long c d) e =
    let k : low_digits r ≡ low_digits q = ground arith in
    let h : high_digits r ≡ high_digits q = ground arith in
    (omega (arith, low_places r q k, high_places r q (omega arith) (omega arith) h), ground arith)

-- No escaped rune begins with a plus sign, nor is one empty.
starts_plus-encode : (rs : List ℕ) → starts_plus (encode rs) ≡ false
unfolding encode starts_plus
starts_plus-encode [] = refl
starts_plus-encode (r ∷ rs) = go (sanitize_rune r) (form r)
  where
    go : (t : Text) → Form r t → starts_plus (t ++ encode rs) ≡ false
    go t (plain a b) = unfold is_channel_char in ground arith
    go t (short a b) = rw b
    go t (long a b) = rw b

encode-ne-nil : (r : ℕ) (rs : List ℕ) → encode (r ∷ rs) ≢ []
unfolding encode
encode-ne-nil r rs = go (sanitize_rune r) (form r)
  where
    go : (t : Text) → Form r t → t ++ encode rs ≢ []
    go t (plain a b) = λ e. ground arith
    go t (short a b) = λ e. ground arith
    go t (long a b) = λ e. ground arith

encode-injective :
    (rs qs : List ℕ) → All IsRune rs → All IsRune qs → encode rs ≡ encode qs → rs ≡ qs
unfolding encode
encode-injective [] [] hr hq e = refl
encode-injective [] (q ∷ qs) hr hq e = absurd (encode-ne-nil q qs (sym e))
encode-injective (r ∷ rs) [] hr hq e = absurd (encode-ne-nil r rs e)
encode-injective (r ∷ rs) (q ∷ qs) hr hq e =
    let (a, b) =
      peel_forms r q (sanitize_rune r) (sanitize_rune q) (encode rs) (encode qs) hr.0 hq.0
        (starts_plus-encode rs) (starts_plus-encode qs) (form r) (form q) e in
    cc (a, encode-injective rs qs hr.1 hq.1 b)

-- The escaping keeps apart whatever texts differ in their runes: two channel parts that are escaped
-- alike hold the same runes.
pub sanitized_injective :
    (s t : Text)
    → append_sanitized_channel_part [] s ≡ append_sanitized_channel_part [] t
    → runes s ≡ runes t
unfolding append_sanitized_channel_part
sanitized_injective s t e =
    encode-injective (runes s) (runes t) (runes-IsRune s) (runes-IsRune t)
      (sym (append_runes-encode [] (runes s)) ∙ e ∙ append_runes-encode [] (runes t))

-- A character that no broker reads as a separator or a wildcard.
abbrev pub IsPlainChar : ℕ → Type 0
IsPlainChar c = (is_channel_char c || nat_beq c b'+') ≡ true

plain_table :
    each_under (λ d. is_channel_char (hex_digit d 0) || nat_beq (hex_digit d 0) b'+') 16 ≡ true
unfolding each_under hex_digit is_channel_char
plain_table = refl

hex_plain : (r s : ℕ) → IsPlainChar (hex_digit r s)
hex_plain r s = rw (hex_digit_mod r s) (
    each_under_at (λ d. is_channel_char (hex_digit d 0) || nat_beq (hex_digit d 0) b'+') 16
      (r / 2 ^ s % 16) (omega arith) plain_table)

Form-plain : (r : ℕ) (t : Text) → Form r t → All IsPlainChar t
unfolding is_channel_char
Form-plain r t (plain a b) = rw b (rw a refl, tt)
Form-plain r t (short a b) =
    rw b (refl, (refl, (hex_plain r 12, (hex_plain r 8, (hex_plain r 4, (hex_plain r 0, tt))))))
Form-plain r t (long a b) = rw b (
  refl,
  (
    refl,
    (
      hex_plain r 28,
      (
        hex_plain r 24,
        (
          hex_plain r 20,
          (hex_plain r 16, (hex_plain r 12, (hex_plain r 8, (hex_plain r 4, (hex_plain r 0, tt))))),
        ),
      ),
    ),
  ),
)

encode-plain : (rs : List ℕ) → All IsPlainChar (encode rs)
unfolding encode
encode-plain [] = tt
encode-plain (r ∷ rs) =
    All-append IsPlainChar (sanitize_rune r) (encode rs) (Form-plain r (sanitize_rune r) (form r))
      (encode-plain rs)

-- Escaping leaves ASCII letters, digits, `_` and `+` alone.
pub sanitized_plain : (s : Text) → All IsPlainChar (append_sanitized_channel_part [] s)
unfolding append_sanitized_channel_part
sanitized_plain s = rw (append_runes-encode [] (runes s)) (encode-plain (runes s))

-- Escaping adds to what the buffer holds.
pub sanitized-append :
    (buf s : Text) → append_sanitized_channel_part buf s ≡ buf ++ append_sanitized_channel_part [] s
unfolding append_sanitized_channel_part
sanitized-append buf s =
    append_runes-encode buf (runes s) ∙ sym (ap (◌++◌ buf) (append_runes-encode [] (runes s)))

runes-ne-nil : (a : ℕ) (s : Text) → runes (a ∷ s) ≢ []
unfolding runes
runes-ne-nil a [] = λ e. cc
runes-ne-nil a (b ∷ []) = λ e. ground arith
runes-ne-nil a (b ∷ c ∷ []) = λ e. ground arith
runes-ne-nil a (b ∷ c ∷ d ∷ s) = λ e. ground arith

pub runes-nonempty : (s : Text) → s ≢ [] → runes s ≢ []
runes-nonempty [] h = absurd (h refl)
runes-nonempty (a ∷ s) h = runes-ne-nil a s

encode-nonempty : (rs : List ℕ) → rs ≢ [] → encode rs ≢ []
encode-nonempty [] h = absurd (h refl)
encode-nonempty (r ∷ rs) h = encode-ne-nil r rs

pub sanitized-nonempty : (s : Text) → s ≢ [] → append_sanitized_channel_part [] s ≢ []
unfolding append_sanitized_channel_part
sanitized-nonempty s h =
    rw (append_runes-encode [] (runes s)) (encode-nonempty (runes s) (runes-nonempty s h))
