-- ===== src/Codegen/Pairs.antt =====
-- The generator's parameters, written and read back.
use psrpc.Base.{
  ℕ, ◌≡◌, refl, ap, ◌∙◌, Bool, true, false, not, ◌&&◌, List, [], ◌∷◌, ◌++◌, some, Text, nat_beq,
  all, map, ok, arith, text_comparable,
}
use psrpc.Base.Assoc.{insert}
use psrpc.Codegen.Texts.{cut_first, split}
use psrpc.Codegen.Params.{put_pair, and_then, collect, params_of}

-- A text without the byte.
abbrev pub without : ℕ → Text → Bool
without c s = all (λ x. not (nat_beq x c)) s

-- Key and value, of which the value is not empty and neither holds what separates them.
abbrev pub is_pair : Text × Text → Bool
is_pair (k, []) = false
is_pair (k, c ∷ v) = without 61 k && (without 44 k && without 44 (c ∷ v))

abbrev pub written : Text × Text → Text
written (k, v) = k ++ 61 ∷ v

unfoldable pub joined : List Text → Text
joined [] = []
joined (p ∷ []) = p
joined (p ∷ q ∷ ps) = p ++ 44 ∷ joined (q ∷ ps)

-- The pairs in a map, the later of one key.
unfoldable pub put_all : List (Text × Text) → List (Text × Text) → List (Text × Text)
put_all m [] = m
put_all m ((k, v) ∷ ps) = put_all (insert m k v) ps

split-without : (c : ℕ) (s : Text) → without c s ≡ true → split c s ≡ s ∷ []
unfolding split
split-without c [] h = refl
split-without c (x ∷ s) h = ground (arith, h, split-without c s)

split-append : (c : ℕ) (s t : Text) → without c s ≡ true → split c (s ++ c ∷ t) ≡ s ∷ split c t
unfolding split
split-append c [] t h = ground arith
split-append c (x ∷ s) t h = ground (arith, h, split-append c s t)

split-joined :
    (p : Text) (ps : List Text)
    → all (without 44) (p ∷ ps) ≡ true
    → split 44 (joined (p ∷ ps)) ≡ p ∷ ps
unfolding joined
split-joined p [] h = split-without 44 p (ground (arith, h))
split-joined p (q ∷ ps) h =
    split-append 44 p (joined (q ∷ ps)) (ground (arith, h))
    ∙ ap (λ ws. p ∷ ws) (split-joined q ps (ground (arith, h)))

cut_first-append :
    (c : ℕ) (s t : Text) → without c s ≡ true → cut_first c (s ++ c ∷ t) ≡ some (s, t)
unfolding cut_first
cut_first-append c [] t h = ground arith
cut_first-append c (x ∷ s) t h = ground (arith, h, cut_first-append c s t)

collect-written :
    (m : List (Text × Text)) (k v : Text) (parts : List Text)
    → collect m ((k ++ 61 ∷ v) ∷ parts)
      ≡ and_then (put_pair (k ++ 61 ∷ v) m (cut_first 61 (k ++ 61 ∷ v))) (λ qs. collect qs parts)
unfolding collect
collect-written m [] v parts = refl
collect-written m (c ∷ k) v parts = refl

collect-pairs :
    (m : List (Text × Text)) (ps : List (Text × Text))
    → all is_pair ps ≡ true
    → collect m (map written ps) ≡ ok (put_all m ps)
unfolding put_all put_pair
collect-pairs m [] h = unfold collect in refl
collect-pairs m ((k, []) ∷ ps) h = cc
collect-pairs m ((k, c ∷ v) ∷ ps) h =
    collect-written m k (c ∷ v) (map written ps)
    ∙ ap (λ o. and_then (put_pair (k ++ 61 ∷ c ∷ v) m o) (λ qs. collect qs (map written ps)))
        (cut_first-append 61 k (c ∷ v) (ground (arith, h)))
    ∙ collect-pairs (insert m k (c ∷ v)) ps (ground (arith, h))

without-append :
    (c : ℕ) (s t : Text) → without c s ≡ true → without c t ≡ true → without c (s ++ t) ≡ true
without-append c [] t h k = k
without-append c (x ∷ s) t h k = ground (arith, h, without-append c s t)

written-without : (p : Text × Text) → is_pair p ≡ true → without 44 (written p) ≡ true
written-without (k, []) h = cc
written-without (k, c ∷ v) h =
    without-append 44 k (61 ∷ c ∷ v) (ground (arith, h)) (ground (arith, h))

all-written :
    (ps : List (Text × Text)) → all is_pair ps ≡ true → all (without 44) (map written ps) ≡ true
all-written [] h = refl
all-written (p ∷ ps) h = ground (arith, h, written-without p, all-written ps)

-- Pairs that are written as k=v and joined by commas are read back into a map of them, in which the
-- later value of a key stands, if no value is empty, no key holds `=`, and nothing holds a comma.
pub params_come_back :
    (ps : List (Text × Text))
    → all is_pair ps ≡ true
    → params_of (joined (map written ps)) ≡ ok (put_all [] ps)
unfolding params_of
params_come_back [] h = unfold joined split collect put_all in refl
params_come_back (p ∷ ps) h =
    ap (collect []) (split-joined (written p) (map written ps) (all-written (p ∷ ps) h))
    ∙ collect-pairs [] (p ∷ ps) h
