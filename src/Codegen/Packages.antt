-- ===== src/Codegen/Packages.antt =====
-- go_naming.go: what a file's go_package option says, by the two functions that read it, and the name
-- of a file's package.
use psrpc.Base.{
  ℕ, Bool, true, false, List, [], ◌∷◌, Option, none, some, Text, if◌then◌else◌, list_beq,
}
use psrpc.Codegen.Texts.{cut_first, cut_last, split}
use psrpc.Codegen.Names.{base_name}

abbrev pub semicolon : ℕ
semicolon = 59

abbrev pub slash : ℕ
slash = 47

-- An import path, a declared name, and whether there was an option.
abbrev pub GoPackage : Type 0
GoPackage = Text × Text × Bool

-- A suffix after a semicolon overrides the name.
unfoldable pub with_suffix : Text → Text → Option (Text × Text) → GoPackage
with_suffix imp_path pkg none = (imp_path, pkg, true)
with_suffix imp_path pkg (some (before, after)) = (before, after, true)

unfoldable pub with_slash : Text → Option (Text × Text) → GoPackage
unfolding with_suffix
with_slash pkg none = ([], pkg, true)
with_slash pkg (some (dir, name)) = with_suffix pkg name (cut_first semicolon pkg)

-- Two parts are a path and a name.
unfoldable pub by_parts : Text → List Text → GoPackage
unfolding with_slash
by_parts pkg (path ∷ name ∷ []) = (path, name, true)
by_parts pkg _ = with_slash pkg (cut_last slash pkg)

unfoldable pub go_package_option : Text → GoPackage
unfolding by_parts
go_package_option [] = ([], [], false)
go_package_option (x ∷ pkg) = by_parts (x ∷ pkg) (split semicolon (x ∷ pkg))

unfoldable pub name_or : Text → Text → GoPackage → Text × Bool
unfolding base_name
name_or declared file (imp_path, pkg, true) = (pkg, true)
name_or declared file (imp_path, pkg, false) =
    if list_beq declared [] then (base_name file, false) else (declared, false)

-- goPackageName, of a file's option, package and name.
unfoldable pub go_package_name : Text → Text → Text → Text × Bool
unfolding name_or go_package_option
go_package_name option declared file = name_or declared file (go_package_option option)

-- parseGoPackageOption, without a semicolon.
unfoldable pub by_path : Text → Option (Text × Text) → Text × Text
by_path v none = ([], v)
by_path v (some (dir, name)) = (v, name)

unfoldable pub by_semicolon : Text → Option (Text × Text) → Text × Text
unfolding by_path
by_semicolon v none = by_path v (cut_last slash v)
by_semicolon v (some (path, name)) = (path, name)

unfoldable pub parse_go_package_option : Text → Text × Text
unfolding by_semicolon
parse_go_package_option v = by_semicolon v (cut_first semicolon v)
