-- ===== src/Codegen/TypemapTests.antt =====
-- A file with a message in a message, and its map of names.
use psrpc.Codegen.Qualified.{names_below}
use mathlib.Core.Option
use psrpc.Base.{◌≡◌, refl, [], ◌∷◌, some, text, text_comparable, map}
use psrpc.Base.Assoc.{insert, lookup}
use psrpc.Codegen.Typemap.{
  path_equal, File, no_more, nested, message, DefinitionComments, comments, message_defs_for_file,
  proto_name,
}
use psrpc.Codegen.Registered.{is_among, registered}

abbrev about_b : DefinitionComments
about_b = record { leading = text "B here"; trailing = []; leading_detached = [] }

abbrev two_messages : File
two_messages = record {
  proto_package = text "p.v1";
  source_code_info =
      some (record { location_path = 4 ∷ 0 ∷ 3 ∷ 0 ∷ []; comments_here = about_b } ∷ []);
  message_type =
      nested (message (text "A") (nested (message (text "B") no_more) no_more))
        (nested (message (text "C") no_more) no_more);
}

names_run :
    map (λ e. e.0) (message_defs_for_file two_messages)
    ≡ text ".p.v1.A" ∷ text ".p.v1.A.B" ∷ text ".p.v1.C" ∷ []
unfolding message_defs_for_file insert
names_run = refl

comments_run :
    Option.map comments (lookup (message_defs_for_file two_messages) (text ".p.v1.A.B"))
    ≡ some about_b
unfolding message_defs_for_file lookup insert path_equal
comments_run = refl

registered_example :
    Option.map proto_name (lookup (message_defs_for_file two_messages) (text ".p.v1.A.B"))
    ≡ some (text ".p.v1.A.B")
unfolding message_defs_for_file is_among names_below
registered_example = registered two_messages (text ".p.v1.A.B")
