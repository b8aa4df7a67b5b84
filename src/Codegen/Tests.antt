-- ===== src/Codegen/Tests.antt =====
-- Names that the generator makes.
use psrpc.Base.Assoc.{insert}
use psrpc.Codegen.Params.{params_of, unknown, parse_command_line_params}
use psrpc.Codegen.Pairs.{params_come_back, written, joined, put_all}
use psrpc.Codegen.Texts.{split, cut_last, cut_first}
use psrpc.Codegen.Agreement.{package_options_agree}
use psrpc.Codegen.Packages.{parse_go_package_option, go_package_option, go_package_name}
use psrpc.Codegen.Names.{base_name, camel_case, lower_camel_case}
use psrpc.Base.{map, ◌∷◌, failed, ok, Text, List, ◌≡◌, refl, true, [], none, some, text}

camel_example : camel_case (text "_my_field_name_2") ≡ text "XMyFieldName_2"
unfolding camel_case
camel_example = refl

base_example : base_name (text "api/v1.2/svc.psrpc.proto") ≡ text "svc.psrpc"
unfolding base_name
base_example = refl

empty_name_panics : lower_camel_case [] ≡ none
unfolding lower_camel_case
empty_name_panics = refl

lower_example : lower_camel_case (text "get_room") ≡ some (text "getRoom")
unfolding lower_camel_case
lower_example = refl

plain_package : go_package_name (text "a.com/foo;bar") [] (text "x.proto") ≡ (text "bar", true)
unfolding go_package_name split
plain_package = refl

-- Two semicolons without a slash are read differently.
two_semicolons :
    (go_package_option (text "a;b;c") ≡ ([], text "a;b;c", true))
    × (parse_go_package_option (text "a;b;c") ≡ (text "a", text "b;c"))
unfolding go_package_option split cut_last parse_go_package_option cut_first
two_semicolons = (refl, refl)

package_options_agree_example :
    go_package_option (text "a.com/foo;bar") ≡ (text "a.com/foo", text "bar", true)
unfolding cut_first parse_go_package_option
package_options_agree_example = package_options_agree 97 (text ".com/foo;bar") refl

abbrev pairs : List (Text × Text)
pairs = (text "module", text "a.com/m") ∷ (text "Mx.proto", text "a=b") ∷ []

flags_are_set :
    parse_command_line_params (text "module=a.com/m,,Mx.proto=a=b,paths=source_relative")
    ≡ ok (record {
      import_map = (text "x.proto", text "a=b") ∷ [];
      paths = text "source_relative";
      mod_path = text "a.com/m";
      import_prefix = [];
    })
unfolding parse_command_line_params split cut_first insert
flags_are_set = refl

unknown_flag_fails :
    parse_command_line_params (text "debug=1") ≡ failed (unknown (text "debug") (text "1"))
unfolding parse_command_line_params split cut_first insert
unknown_flag_fails = refl

params_come_back_example : params_of (joined (map written pairs)) ≡ ok pairs
unfolding put_all insert
params_come_back_example = params_come_back pairs refl
