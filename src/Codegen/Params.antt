-- ===== src/Codegen/Params.antt =====
-- command_line.go: the parameters of the generator, comma-separated pairs of a key and a value. Go
-- goes over its map of them in any order; here it is that of the list.
use psrpc.Base.{
  List, [], ◌∷◌, Option, none, some, Text, text, if◌then◌else◌, nat_beq, list_beq, Result, ok,
  failed, text_comparable,
}
use psrpc.Base.Assoc.{insert}
use psrpc.Codegen.Texts.{cut_first, split}

pub record CommandLineParams : Type 0 where
  pub import_map : List (Text × Text)
  pub paths : Text
  pub mod_path : Text
  pub import_prefix : Text

-- Not of the form k=v, or a flag that is not known.
pub data ParamError : Type 0 where
  malformed : Text → ParamError
  unknown : Text → Text → ParamError

-- One parameter, put into the map.
unfoldable pub put_pair :
    Text → List (Text × Text) → Option (Text × Text) → Result ParamError (List (Text × Text))
put_pair p ps none = failed (malformed p)
put_pair p ps (some (k, [])) = failed (malformed k)
put_pair p ps (some (k, c ∷ v)) = ok (insert ps k (c ∷ v))

abbrev pub and_then :
    {A B : Type 0} → Result ParamError A → (A → Result ParamError B) → Result ParamError B
and_then (failed e) next = failed e
and_then (ok a) next = next a

-- The loop over the parts; empty ones are skipped.
unfoldable pub collect : List (Text × Text) → List Text → Result ParamError (List (Text × Text))
unfolding put_pair
collect ps [] = ok ps
collect ps ([] ∷ parts) = collect ps parts
collect ps ((c ∷ p) ∷ parts) =
    and_then (put_pair (c ∷ p) ps (cut_first 61 (c ∷ p))) (λ qs. collect qs parts)

unfoldable pub params_of : Text → Result ParamError (List (Text × Text))
unfolding collect
params_of parameter = collect [] (split 44 parameter)

-- What follows a prefix.
unfoldable pub after_prefix : Text → Text → Option Text
after_prefix [] s = some s
after_prefix (c ∷ p) [] = none
after_prefix (c ∷ p) (x ∷ s) = let rest = after_prefix p s in if nat_beq c x then rest else none

unfoldable pub set_paths : CommandLineParams → Text → Result ParamError CommandLineParams
set_paths clp v =
    if list_beq v (text "import")
    then ok clp
    else if list_beq v (text "source_relative")
    then ok (record clp { paths = text "source_relative" })
    else failed (unknown (text "paths") v)

unfoldable pub set_flag : CommandLineParams → Text → Text → Result ParamError CommandLineParams
unfolding set_paths
set_flag clp k v =
    if list_beq k (text "paths")
    then set_paths clp v
    else if list_beq k (text "module")
    then ok (record clp { mod_path = v })
    else if list_beq k (text "import_prefix")
    then ok (record clp { import_prefix = v })
    else failed (unknown k v)

-- A flag, by what follows the prefixes of import mappings in its key.
unfoldable pub set_param :
    CommandLineParams
    → Text
    → Text
    → Option Text
    → Option Text
    → Result ParamError CommandLineParams
unfolding set_flag
set_param clp k v (some file) _ = ok (record clp { import_map = insert clp.import_map file v })
set_param clp k v none (some file) = ok (record clp { import_map = insert clp.import_map file v })
set_param clp k v none none = set_flag clp k v

unfoldable pub set_params :
    CommandLineParams → List (Text × Text) → Result ParamError CommandLineParams
unfolding set_param after_prefix
set_params clp [] = ok clp
set_params clp ((k, v) ∷ ps) =
    and_then
      (set_param clp k v (after_prefix (text "M") k) (after_prefix (text "go_import_mapping@") k))
      (λ c. set_params c ps)

unfoldable pub parse_command_line_params : Text → Result ParamError CommandLineParams
unfolding params_of set_params
parse_command_line_params parameter =
    and_then (params_of parameter)
      (set_params (record { import_map = []; paths = []; mod_path = []; import_prefix = [] }))
