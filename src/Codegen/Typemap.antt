-- ===== src/Codegen/Typemap.antt =====
-- internal/gen/typemap/typemap.go: the messages that a file defines, by their qualified names. Public
-- imports are left out. A path is the numbers it holds, though Go's paths may share their memory.
use psrpc.Base.{
  ℕ, suc, Bool, true, false, ◌&&◌, List, [], ◌∷◌, ◌++◌, Option, none, some, Text, text,
  if◌then◌else◌, nat_beq, text_comparable,
}
use psrpc.Base.Assoc.{insert}

mutual
  pub data Descriptor : Type 0 where
    message : Text → Nested → Descriptor

  -- The messages nested in one, in order.
  pub data Nested : Type 0 where
    no_more : Nested
    nested : Descriptor → Nested → Nested

pub record DefinitionComments : Type 0 where
  pub leading : Text
  pub trailing : Text
  pub leading_detached : List Text

pub record Location : Type 0 where
  pub location_path : List ℕ
  pub comments_here : DefinitionComments

-- A file: its package, what the compiler said of its source, and its messages.
pub record File : Type 0 where
  pub proto_package : Text
  pub source_code_info : Option (List Location)
  pub message_type : Nested

abbrev pub no_comments : DefinitionComments
no_comments = record { leading = []; trailing = []; leading_detached = [] }

unfoldable pub path_equal : List ℕ → List ℕ → Bool
path_equal [] [] = true
path_equal [] (y ∷ ys) = false
path_equal (x ∷ xs) [] = false
path_equal (x ∷ xs) (y ∷ ys) = nat_beq y x && path_equal xs ys

unfoldable pub first_at : List ℕ → List Location → DefinitionComments
first_at path [] = no_comments
first_at path (loc ∷ locs) =
    let rest = first_at path locs in
    if path_equal path loc.location_path then loc.comments_here else rest

unfoldable pub comments_at_path : List ℕ → Option (List Location) → DefinitionComments
unfolding first_at
comments_at_path path none = no_comments
comments_at_path path (some locs) = first_at path locs

mutual
  pub data MessageDefinition : Type 0 where
    definition : Descriptor → File → Parent → DefinitionComments → List ℕ → MessageDefinition

  -- The parent, of which there is none at the top level.
  pub data Parent : Type 0 where
    top_level : Parent
    within : MessageDefinition → Parent

abbrev pub name_of : Descriptor → Text
name_of (message name ms) = name

abbrev pub nested_type : Descriptor → Nested
nested_type (message name ms) = ms

abbrev pub descriptor : MessageDefinition → Descriptor
descriptor (definition d f p c path) = d

abbrev pub file_of : MessageDefinition → File
file_of (definition d f p c path) = f

abbrev pub parent : MessageDefinition → Parent
parent (definition d f p c path) = p

abbrev pub comments : MessageDefinition → DefinitionComments
comments (definition d f p c path) = c

abbrev pub path_of : MessageDefinition → List ℕ
path_of (definition d f p c path) = path

-- The loop of Lineage, from a parent upwards.
unfoldable pub lineage_from : Parent → List MessageDefinition
lineage_from top_level = []
lineage_from (within (definition d f p c path)) = lineage_from p ++ definition d f p c path ∷ []

unfoldable pub lineage : MessageDefinition → List MessageDefinition
unfolding lineage_from
lineage m = lineage_from (parent m)

-- The loop of ProtoName over the lineage.
unfoldable pub add_names : Text → List MessageDefinition → Text
add_names prefix [] = prefix
add_names prefix (m ∷ ms) = add_names (prefix ++ name_of (descriptor m) ++ text ".") ms

unfoldable pub package_prefix : Text → Text
package_prefix [] = text "."
package_prefix (c ∷ pkg) = text "." ++ (c ∷ pkg) ++ text "."

unfoldable pub proto_name : MessageDefinition → Text
unfolding lineage add_names package_prefix
proto_name m =
    add_names (package_prefix (file_of m).proto_package) (lineage m) ++ name_of (descriptor m)

abbrev pub child_of : MessageDefinition → ℕ → Descriptor → MessageDefinition
child_of m i d =
    definition d (file_of m) (within m)
      (comments_at_path (path_of m ++ 3 ∷ i ∷ []) (file_of m).source_code_info)
      (path_of m ++ 3 ∷ i ∷ [])

-- The loop of descendants over the messages nested in one, from the i-th.
unfoldable pub descendants_from : MessageDefinition → ℕ → Nested → List MessageDefinition
unfolding comments_at_path
descendants_from m i no_more = []
descendants_from m i (nested (message n ms) rest) =
    child_of m i (message n ms)
    ∷ (descendants_from (child_of m i (message n ms)) 0 ms ++ descendants_from m (suc i) rest)

unfoldable pub descendants : MessageDefinition → List MessageDefinition
unfolding descendants_from
descendants m = descendants_from m 0 (nested_type (descriptor m))

abbrev pub top_of : File → ℕ → Descriptor → MessageDefinition
top_of f i d =
    definition d f top_level (comments_at_path (4 ∷ i ∷ []) f.source_code_info) (4 ∷ i ∷ [])

-- Go's map, by the names of definitions that come in turn.
unfoldable pub put_names :
    List (Text × MessageDefinition) → List MessageDefinition → List (Text × MessageDefinition)
unfolding proto_name
put_names by_proto_name [] = by_proto_name
put_names by_proto_name (m ∷ ms) = put_names (insert by_proto_name (proto_name m) m) ms

-- The loop over a file's messages, from the i-th.
unfoldable pub defs_from :
    File → ℕ → Nested → List (Text × MessageDefinition) → List (Text × MessageDefinition)
unfolding put_names descendants comments_at_path
defs_from f i no_more by_proto_name = by_proto_name
defs_from f i (nested d ds) by_proto_name =
    defs_from f (suc i) ds (put_names by_proto_name (top_of f i d ∷ descendants (top_of f i d)))

unfoldable pub message_defs_for_file : File → List (Text × MessageDefinition)
unfolding defs_from
message_defs_for_file f = defs_from f 0 f.message_type []
