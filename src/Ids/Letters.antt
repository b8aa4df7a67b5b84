-- ===== src/Ids/Letters.antt =====
-- Identifiers are the first letters among the chunks of the draws.
use psrpc.Base.{
  Bool-cases, ℕ, zero, suc, ◌-◌, ◌/◌, ◌%◌, ◌<◌, ◌≡◌, refl, ap, ◌∙◌, Bool, true, false, List, [],
  ◌∷◌, ◌++◌, Option, none, some, Text, if◌then◌else◌, leb, nat_beq, length, length-append,
  get_elem?, take, append_assoc, append-nil, arith, inl, inr,
}
use psrpc.Ids.{
  alphabet, Read, full, misses, write_chunk, read_draw, after_draw, read_id_chars, with_prefix,
  format_id,
}

abbrev pub and_letter : Option ℕ → Text → Text
and_letter none b = b
and_letter (some c) b = c ∷ b

-- The letters among so many chunks of a draw, and among all chunks of draws.
unfoldable pub letters_in : ℕ → ℕ → Text
letters_in zero r = []
letters_in (suc i) r = and_letter (get_elem? alphabet (r % 64)) (letters_in i (r / 64))

unfoldable pub letters : List ℕ → Text
unfolding letters_in
letters [] = []
letters (r ∷ draws) = letters_in 10 r ++ letters draws

-- What reading letters into a buffer comes to.
abbrev came : ℕ → Text → Text → Read
came missing b ls =
    if leb missing (length ls)
    then full (b ++ take missing ls)
    else misses (missing - length ls) (b ++ ls)

came-cons : (c m : ℕ) (b ls : Text) → came (suc m) (b ++ c ∷ []) ls ≡ came (suc (suc m)) b (c ∷ ls)
came-cons c m b ls = elim (Bool-cases (leb (suc m) (length ls))) [
  | inl y ↦ rw (y, more y) (ap full (append_assoc b (c ∷ []) (take (suc m) ls)))
  | inr y ↦ rw (y, fewer y, minus) (ap (misses (suc m - length ls)) (append_assoc b (c ∷ []) ls))
]
  where
    more : leb (suc m) (length ls) ≡ true → leb (suc (suc m)) (suc (length ls)) ≡ true
    more y = ground (arith, y)

    fewer : leb (suc m) (length ls) ≡ false → leb (suc (suc m)) (suc (length ls)) ≡ false
    fewer y = ground (arith, y)

    minus : suc (suc m) - suc (length ls) ≡ suc m - length ls
    minus = omega arith

one_less : (m : ℕ) → suc (suc m) - 1 ≡ suc m
one_less m = omega arith

at_least_two : (m : ℕ) → nat_beq (suc (suc m)) 1 ≡ false
at_least_two m = ground arith

chunk-came :
    (o : Option ℕ) (missing : ℕ) (b ls : Text) (next : ℕ → Text → Read)
    → 0 < missing
    → ((m : ℕ) (c : Text) → 0 < m → next m c ≡ came m c ls)
    → write_chunk o missing b next ≡ came missing b (and_letter o ls)
chunk-came none missing b ls next h n = n missing b h
chunk-came (some c) zero b ls next h n = ground arith
chunk-came (some c) (suc zero) b ls next h n = ground arith
chunk-came (some c) (suc (suc m)) b ls next h n =
    rw (at_least_two m, one_less m) (n (suc m) (b ++ c ∷ []) (ground arith) ∙ came-cons c m b ls)

read_draw-came :
    (i r missing : ℕ) (b : Text)
    → 0 < missing
    → read_draw i r missing b ≡ came missing b (letters_in i r)
unfolding read_draw letters_in
read_draw-came zero r missing b h = ground (arith, append-nil b, h)
read_draw-came (suc i) r missing b h =
    chunk-came (get_elem? alphabet (r % 64)) missing b (letters_in i (r / 64))
      (λ m c. read_draw i (r / 64) m c) h (λ m c k. read_draw-came i (r / 64) m c k)

-- What reading the letters of draws comes to.
abbrev all_came : ℕ → Text → Text → Option Text
all_came missing b ls = if leb missing (length ls) then some (b ++ take missing ls) else none

take-append : (n : ℕ) (xs ys : Text) → leb n (length xs) ≡ true → take n (xs ++ ys) ≡ take n xs
take-append zero xs ys h = refl
take-append (suc n) [] ys h = ground (arith, h)
take-append (suc n) (x ∷ xs) ys h = ap (λ zs. x ∷ zs) (take-append n xs ys (ground (arith, h)))

take-past :
    (n : ℕ) (xs ys : Text)
    → leb n (length xs) ≡ false
    → take n (xs ++ ys) ≡ xs ++ take (n - length xs) ys
take-past n [] ys h = ap (λ m. take m ys) (omega arith)
take-past zero (x ∷ xs) ys h = ground (arith, h)
take-past (suc n) (x ∷ xs) ys h =
    ap (λ zs. x ∷ zs) (take-past n xs ys (ground (arith, h)) ∙ ap (λ m. xs ++ take m ys) minus)
  where
    minus : n - length xs ≡ suc n - suc (length xs)
    minus = omega arith

after-came :
    (missing : ℕ) (b ls more : Text) (next : ℕ → Text → Option Text)
    → 0 < missing
    → ((m : ℕ) (c : Text) → 0 < m → next m c ≡ all_came m c more)
    → after_draw (came missing b ls) next ≡ all_came missing b (ls ++ more)
after-came missing b ls more next h n = elim (Bool-cases (leb missing (length ls))) [
  | inl y ↦ rw (y, enough y, take-append missing ls more y) refl
  | inr y ↦ rw (y) (
      n (missing - length ls) (b ++ ls) (ground (arith, y))
      ∙ rw (still y, take-past missing ls more y)
          (ap (λ c. if leb missing (length (ls ++ more)) then some c else none)
            (append_assoc b ls (take (missing - length ls) more))))
]
  where
    enough : leb missing (length ls) ≡ true → leb missing (length (ls ++ more)) ≡ true
    enough y = ground (arith, y, length-append ls more)

    still :
        leb missing (length ls) ≡ false
        → leb (missing - length ls) (length more) ≡ leb missing (length (ls ++ more))
    still y = ground (arith, y, length-append ls more)

read_id_chars-came :
    (draws : List ℕ) (missing : ℕ) (b : Text)
    → 0 < missing
    → read_id_chars draws missing b ≡ all_came missing b (letters draws)
unfolding read_id_chars letters
read_id_chars-came [] missing b h = ground (arith, h)
read_id_chars-came (r ∷ draws) missing b h =
    ap (λ x. after_draw x (λ m c. read_id_chars draws m c)) (read_draw-came 10 r missing b h)
    ∙ after-came missing b (letters_in 10 r) (letters draws) (λ m c. read_id_chars draws m c) h
        (λ m c k. read_id_chars-came draws m c k)

-- An identifier is its prefix and the first twelve letters among the chunks of the draws, each chunk
-- used once and in order; as soon as the draws hold that many, no other draw is needed.
pub id_is_first_letters :
    (prefix : Text) (draws : List ℕ)
    → format_id prefix draws
      ≡ (if leb 12 (length (letters draws)) then some (prefix ++ take 12 (letters draws)) else none)
unfolding format_id
id_is_first_letters prefix draws =
    ap (with_prefix prefix) (read_id_chars-came draws 12 [] (ground arith))
    ∙ prefixed (leb 12 (length (letters draws)))
  where
    prefixed :
        (y : Bool)
        → with_prefix prefix (if y then some ([] ++ take 12 (letters draws)) else none)
          ≡ (if y then some (prefix ++ take 12 (letters draws)) else none)
    prefixed true = refl
    prefixed false = refl
