-- ===== src/BuildInfo/Info/Sums.antt =====
-- Which checksum a module is recorded with.
use go2nix.Base.{
  List, [], ◌∷◌, ◌++◌, ◌||◌, Option, none, some, Text, codes, text_eq, has_prefix, if◌then◌else◌,
}
use go2nix.BuildInfo.Spaces.{trim_space, fields}
use go2nix.BuildInfo.Godebug.Precedence.{first_of}
use go2nix.BuildInfo.Info.{
  ModDep, mod_dep, dep_replaced, DebugModule, debug_module, debug_replaced, ends_in,
}

-- The checksum that the fields of a line give for a key, `path@version`.
abbrev pub fields_sum : Text → List Text → Option Text
fields_sum key [] = none
fields_sum key (_ ∷ []) = none
fields_sum key (_ ∷ _ ∷ []) = none
fields_sum key (path ∷ version ∷ sum ∷ []) =
    if ends_in version (codes "/go.mod")
    then none
    else if text_eq (path ++ (codes "@" ++ version)) key
    then some sum
    else none
fields_sum key (_ ∷ _ ∷ _ ∷ _ ∷ _) = none

abbrev pub line_sum : Text → Text → Option Text
line_sum key raw =
    if text_eq (trim_space raw) [] || has_prefix (trim_space raw) (codes "//")
    then none
    else fields_sum key (fields (trim_space raw))

-- The checksum of the last line of a go.sum for a key.
abbrev pub last_sum : Text → List Text → Option Text
last_sum key [] = none
last_sum key (line ∷ lines) = first_of (last_sum key lines) (line_sum key line)

abbrev pub go_sum : Text → Option (List Text) → Option Text
go_sum key none = none
go_sum key (some lines) = last_sum key lines

-- The module that a chain of replacements ends in, and the checksums on the way to it.
abbrev pub last_dep : ModDep → Text × Text
last_dep (mod_dep path version) = (path, version)
last_dep (dep_replaced path version other) = last_dep other

abbrev pub last_module : DebugModule → Text × Text × Text
last_module (debug_module path version sum) = (path, version, sum)
last_module (debug_replaced path version other) = last_module other
