-- ===== src/Codegen/Registered.antt =====
-- What the map of a file's messages holds, against the qualified names by recursion over the file.
use mathlib.Core.Option
use psrpc.Base.{
  ℕ, suc, ◌≡◌, refl, sym, ap, ap₂, ◌∙◌, Bool, true, false, ◌||◌, List, [], ◌∷◌, ◌++◌, Text, text,
  map, Option, some, none, is_some, list_beq, text_eq_iff, text_comparable, arith, if◌then◌else◌,
}
use psrpc.Base.Assoc.{lookup, insert, lookup-insert}
use psrpc.Codegen.Typemap.{
  add_names, lineage_from, lineage, Nested, no_more, nested, message, File, MessageDefinition,
  proto_name, descendants, put_names, defs_from, top_of, package_prefix, message_defs_for_file,
}
use psrpc.Codegen.Qualified.{names_below, names-descendants}

unfoldable pub is_among : Text → List Text → Bool
is_among k [] = false
is_among k (n ∷ ns) = list_beq n k || is_among k ns

-- Each entry of the map is under its own name.
abbrev IsNamed : List (Text × MessageDefinition) → Type 0
IsNamed defs = (k : Text) → (d : MessageDefinition) → lookup defs k ≡ some d → proto_name d ≡ k

insert-IsNamed :
    (defs : List (Text × MessageDefinition)) (m : MessageDefinition)
    → IsNamed defs
    → IsNamed (insert defs (proto_name m) m)
insert-IsNamed defs m named k d h =
    ground
      (arith, h, lookup-insert defs (proto_name m) m k, text_eq_iff (proto_name m) k, named k d)

put_names-IsNamed :
    (defs : List (Text × MessageDefinition)) (ms : List MessageDefinition)
    → IsNamed defs
    → IsNamed (put_names defs ms)
unfolding put_names
put_names-IsNamed defs [] named = named
put_names-IsNamed defs (m ∷ ms) named =
    put_names-IsNamed (insert defs (proto_name m) m) ms (insert-IsNamed defs m named)

put_names-is_some :
    (defs : List (Text × MessageDefinition)) (ms : List MessageDefinition) (k : Text)
    → is_some (lookup (put_names defs ms) k)
      ≡ (is_some (lookup defs k) || is_among k (map proto_name ms))
unfolding put_names is_among
put_names-is_some defs [] k = ground arith
put_names-is_some defs (m ∷ ms) k = ground (
  arith,
  lookup-insert defs (proto_name m) m k,
  put_names-is_some (insert defs (proto_name m) m) ms k,
)

is_among-append :
    (k : Text) (xs ys : List Text) → is_among k (xs ++ ys) ≡ (is_among k xs || is_among k ys)
unfolding is_among
is_among-append k [] ys = refl
is_among-append k (x ∷ xs) ys = ground (arith, is_among-append k xs ys)

empty-IsNamed : IsNamed []
unfolding lookup
empty-IsNamed k d h = ground (arith, h)

defs_from-IsNamed :
    (f : File) (i : ℕ) (ds : Nested) (defs : List (Text × MessageDefinition))
    → IsNamed defs
    → IsNamed (defs_from f i ds defs)
unfolding defs_from
defs_from-IsNamed f i no_more defs named = named
defs_from-IsNamed f i (nested d ds) defs named =
    defs_from-IsNamed f (suc i) ds (put_names defs (top_of f i d ∷ descendants (top_of f i d)))
      (put_names-IsNamed defs (top_of f i d ∷ descendants (top_of f i d)) named)

proto_name-top_of :
    (f : File) (i : ℕ) (n : Text) (ms : Nested)
    → proto_name (top_of f i (message n ms)) ≡ package_prefix f.proto_package ++ n
unfolding proto_name lineage lineage_from add_names
proto_name-top_of f i n ms = refl

names-top_of :
    (f : File) (i : ℕ) (n : Text) (ms : Nested)
    → map proto_name (descendants (top_of f i (message n ms)))
      ≡ names_below ((package_prefix f.proto_package ++ n) ++ text ".") ms
names-top_of f i n ms =
    names-descendants (top_of f i (message n ms))
    ∙ ap (λ t. names_below (t ++ text ".") ms) (proto_name-top_of f i n ms)

put_names-top_of :
    (f : File) (i : ℕ) (n : Text) (ms : Nested) (defs : List (Text × MessageDefinition)) (k : Text)
    → is_some (
        lookup
          (put_names defs (top_of f i (message n ms) ∷ descendants (top_of f i (message n ms))))
          k)
      ≡ (is_some (lookup defs k)
          || is_among k (
              (package_prefix f.proto_package ++ n)
              ∷ names_below ((package_prefix f.proto_package ++ n) ++ text ".") ms))
put_names-top_of f i n ms defs k =
    put_names-is_some defs (top_of f i (message n ms) ∷ descendants (top_of f i (message n ms))) k
    ∙ ap₂ (λ x xs. is_some (lookup defs k) || is_among k (x ∷ xs)) (proto_name-top_of f i n ms)
        (names-top_of f i n ms)

or_nested : (a b c d : Bool) → ((a || (b || c)) || d) ≡ (a || (b || (c || d)))
or_nested true b c d = refl
or_nested false true c d = refl
or_nested false false c d = refl

defs_from-is_some :
    (f : File) (i : ℕ) (ds : Nested) (defs : List (Text × MessageDefinition)) (k : Text)
    → is_some (lookup (defs_from f i ds defs) k)
      ≡ (is_some (lookup defs k) || is_among k (names_below (package_prefix f.proto_package) ds))
unfolding defs_from names_below is_among
defs_from-is_some f i no_more defs k = ground arith
defs_from-is_some f i (nested (message n ms) ds) defs k =
    let top = top_of f i (message n ms) in
    let prefix = package_prefix f.proto_package in
    let inner = names_below ((prefix ++ n) ++ text ".") ms in
    let others = names_below prefix ds in
    defs_from-is_some f (suc i) ds (put_names defs (top ∷ descendants top)) k
    ∙ ap (λ b. b || is_among k others) (put_names-top_of f i n ms defs k)
    ∙ or_nested (is_some (lookup defs k)) (list_beq (prefix ++ n) k) (is_among k inner)
        (is_among k others)
    ∙ ap (λ b. is_some (lookup defs k) || (list_beq (prefix ++ n) k || b))
        (sym (is_among-append k inner others))

named_entry :
    (o : Option MessageDefinition) (b : Bool) (k : Text)
    → is_some o ≡ b
    → ((d : MessageDefinition) → o ≡ some d → proto_name d ≡ k)
    → Option.map proto_name o ≡ (if b then some k else none)
named_entry none b k h named = ground (arith, h)
named_entry (some d) b k h named = ground (arith, h, named d refl)

-- A file that imports no file publicly maps the names that its messages have by recursion over the
-- file, their package, the messages around them and their own joined by dots, each to a definition of
-- that name, and maps no other name.
pub registered :
    (f : File) (k : Text)
    → Option.map proto_name (lookup (message_defs_for_file f) k) ≡ (
        if is_among k (names_below (package_prefix f.proto_package) f.message_type)
        then some k
        else none)
unfolding message_defs_for_file lookup
registered f k =
    named_entry (lookup (message_defs_for_file f) k)
      (is_among k (names_below (package_prefix f.proto_package) f.message_type)) k
      (defs_from-is_some f 0 f.message_type [] k)
      (defs_from-IsNamed f 0 f.message_type [] empty-IsNamed k)
