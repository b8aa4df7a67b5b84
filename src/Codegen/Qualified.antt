-- ===== src/Codegen/Qualified.antt =====
-- The qualified names of messages, by recursion over the messages of a file.
use psrpc.Base.{ℕ, suc, ◌≡◌, refl, ap, ap₂, ◌∙◌, List, [], ◌∷◌, ◌++◌, Text, text, map, map-append}
use psrpc.Codegen.Typemap.{
  Nested, no_more, nested, message, Descriptor, MessageDefinition, definition, name_of, nested_type,
  descriptor, proto_name, descendants, descendants_from, add_names, lineage, lineage_from,
  package_prefix, child_of,
}

-- The names of messages nested below a name, each before those nested in it.
unfoldable pub names_below : Text → Nested → List Text
names_below prefix no_more = []
names_below prefix (nested (message n ms) rest) =
    (prefix ++ n) ∷ (names_below ((prefix ++ n) ++ text ".") ms ++ names_below prefix rest)

add_names-snoc :
    (prefix : Text) (ms : List MessageDefinition) (m : MessageDefinition)
    → add_names prefix (ms ++ m ∷ []) ≡ (add_names prefix ms ++ name_of (descriptor m)) ++ text "."
unfolding add_names
add_names-snoc prefix [] m = refl
add_names-snoc prefix (x ∷ ms) m =
    add_names-snoc (prefix ++ name_of (descriptor x) ++ text ".") ms m

-- A nested message has its parent's name, a dot and its own.
pub proto_name-child_of :
    (m : MessageDefinition) (i : ℕ) (d : Descriptor)
    → proto_name (child_of m i d) ≡ (proto_name m ++ text ".") ++ name_of d
unfolding proto_name lineage lineage_from
proto_name-child_of (definition e f p c path) i d =
    ap (λ t. t ++ name_of d)
      (add_names-snoc (package_prefix f.proto_package) (lineage_from p) (definition e f p c path))

names-descendants_from :
    (m : MessageDefinition) (i : ℕ) (ms : Nested)
    → map proto_name (descendants_from m i ms) ≡ names_below (proto_name m ++ text ".") ms
unfolding descendants_from names_below
names-descendants_from m i no_more = refl
names-descendants_from m i (nested (message n ms) rest) =
    ap₂ (λ t ts. t ∷ ts) (proto_name-child_of m i (message n ms))
      (map-append proto_name (descendants_from (child_of m i (message n ms)) 0 ms)
          (descendants_from m (suc i) rest)
        ∙ ap₂ (λ xs ys. xs ++ ys)
            (names-descendants_from (child_of m i (message n ms)) 0 ms
              ∙ ap (λ t. names_below (t ++ text ".") ms) (proto_name-child_of m i (message n ms)))
            (names-descendants_from m (suc i) rest))

-- The descendants of a message are named by the path of names that leads to them, in the order of
-- the file.
pub names-descendants :
    (m : MessageDefinition)
    → map proto_name (descendants m)
      ≡ names_below (proto_name m ++ text ".") (nested_type (descriptor m))
unfolding descendants
names-descendants m = names-descendants_from m 0 (nested_type (descriptor m))
