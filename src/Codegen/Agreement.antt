-- ===== src/Codegen/Agreement.antt =====
-- The two functions that read a go_package option agree where it is well formed.
use psrpc.Base.{
  ℕ, ◌≡◌, refl, ap, ◌∙◌, Bool, true, ◌||◌, not, ◌∷◌, Option, none, some, Text, is_some,
  Option-cases, inl, inr, arith,
}
use psrpc.Codegen.Texts.{cut_first, cut_last, split-cut_first, parts_from}
use psrpc.Codegen.Packages.{
  semicolon, slash, GoPackage, with_suffix, with_slash, by_parts, go_package_option, by_path,
  by_semicolon, parse_go_package_option,
}

-- No second semicolon follows the first.
abbrev pub one_semicolon : Option (Text × Text) → Bool
one_semicolon none = true
one_semicolon (some (a, b)) = not (is_some (cut_first semicolon b))

-- The option as it is meant to be: one semicolon at most, or a slash somewhere.
abbrev pub well_formed : Text → Bool
well_formed v = one_semicolon (cut_first semicolon v) || is_some (cut_last slash v)

abbrev given : Text × Text → GoPackage
given (path, name) = (path, name, true)

many_parts :
    (v a b : Text)
    → cut_first semicolon v ≡ some (a, b)
    → is_some (cut_last slash v) ≡ true
    → with_slash v (cut_last slash v) ≡ (a, b, true)
unfolding with_slash with_suffix
many_parts v a b e h = elim (Option-cases (cut_last slash v)) [
  | inl n ↦ ground (arith, h, n)
  | inr ((dir, name), n) ↦ rw (n, e) refl
]

split_once :
    (v a b : Text) (o : Option (Text × Text))
    → cut_first semicolon v ≡ some (a, b)
    → cut_first semicolon b ≡ o
    → (not (is_some o) || is_some (cut_last slash v)) ≡ true
    → by_parts v (a ∷ parts_from semicolon b o) ≡ (a, b, true)
unfolding by_parts
split_once v a b none e f h = refl
split_once v a b (some (c, d)) e f h =
    ap (λ ws. by_parts v (a ∷ c ∷ ws)) (split-cut_first semicolon d)
    ∙ three_parts (cut_first semicolon d)
  where
    three_parts :
        (o : Option (Text × Text)) → by_parts v (a ∷ c ∷ parts_from semicolon d o) ≡ (a, b, true)
    three_parts none = many_parts v a b e h
    three_parts (some (x, y)) = many_parts v a b e h

one_part :
    (v : Text) (o : Option (Text × Text))
    → cut_first semicolon v ≡ none
    → with_slash v o ≡ given (by_path v o)
unfolding with_slash by_path with_suffix
one_part v none e = refl
one_part v (some (dir, name)) e = rw e refl

agree :
    (v : Text) (o : Option (Text × Text))
    → cut_first semicolon v ≡ o
    → (one_semicolon o || is_some (cut_last slash v)) ≡ true
    → by_parts v (parts_from semicolon v o) ≡ given (by_semicolon v o)
unfolding by_parts by_semicolon
agree v none e h = one_part v (cut_last slash v) e
agree v (some (a, b)) e h =
    ap (λ ws. by_parts v (a ∷ ws)) (split-cut_first semicolon b)
    ∙ split_once v a b (cut_first semicolon b) e refl h

-- A go_package option that is not empty is read alike by both functions, if it has one semicolon at
-- most or a slash.
pub package_options_agree :
    (x : ℕ) (v : Text)
    → well_formed (x ∷ v) ≡ true
    → go_package_option (x ∷ v) ≡ given (parse_go_package_option (x ∷ v))
unfolding go_package_option parse_go_package_option
package_options_agree x v h =
    ap (by_parts (x ∷ v)) (split-cut_first semicolon (x ∷ v))
    ∙ agree (x ∷ v) (cut_first semicolon (x ∷ v)) refl h
