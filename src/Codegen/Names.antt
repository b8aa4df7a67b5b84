-- ===== src/Codegen/Names.antt =====
-- internal/gen/stringutils/stringutils.go: identifiers and file names, on bytes.
use psrpc.Base.{
  ℕ, ◌-◌, ◌+◌, ◌/◌, ◌%◌, Bool, true, false, ◌&&◌, [], ◌∷◌, Option, none, some, Text, if◌then◌else◌,
  leb, nat_beq,
}
use psrpc.Codegen.Texts.{cut_last}

abbrev pub underscore : ℕ
underscore = 95

abbrev pub is_ascii_lower : ℕ → Bool
is_ascii_lower c = leb 97 c && leb c 122

abbrev pub is_ascii_digit : ℕ → Bool
is_ascii_digit c = leb 48 c && leb c 57

-- A letter as a capital.
abbrev pub capital : ℕ → ℕ
capital c = if is_ascii_lower c then c - 32 else c

abbrev pub next_is_lower : Text → Bool
next_is_lower [] = false
next_is_lower (c ∷ s) = is_ascii_lower c

-- CamelCase's loop; `within` says that it accepts the lower case letters after a capital.
unfoldable pub camel_from : Bool → Text → Text
camel_from within [] = []
camel_from within (c ∷ s) =
    let after_capital = camel_from true s in
    let after_other = camel_from false s in
    if within && is_ascii_lower c
    then c ∷ after_capital
    else if nat_beq c underscore && next_is_lower s
    then after_other
    else if is_ascii_digit c
    then c ∷ after_other
    else capital c ∷ after_capital

-- CamelCase: a leading underscore becomes an X.
unfoldable pub camel_case : Text → Text
unfolding camel_from
camel_case [] = []
camel_case (c ∷ s) =
    if nat_beq c underscore then 88 ∷ camel_from false s else camel_from false (c ∷ s)

-- `c ^ ' '`.
abbrev flipped : ℕ → ℕ
flipped c = if nat_beq ((c / 32) % 2) 1 then c - 32 else c + 32

abbrev lower_first : Text → Option Text
lower_first [] = none
lower_first (c ∷ s) = some (flipped c ∷ s)

-- LowerCamelCase; it panics at an empty text.
unfoldable pub lower_camel_case : Text → Option Text
unfolding camel_case
lower_camel_case s = lower_first (camel_case s)

abbrev after_cut : Text → Option (Text × Text) → Text
after_cut s none = s
after_cut s (some (a, b)) = b

abbrev before_cut : Text → Option (Text × Text) → Text
before_cut s none = s
before_cut s (some (a, b)) = a

-- BaseName: the last element of a path, without its last suffix.
unfoldable pub base_name : Text → Text
unfolding cut_last
base_name name =
    let element = after_cut name (cut_last 47 name) in before_cut element (cut_last 46 element)
