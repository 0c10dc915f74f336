-- ===== src/BuildInfo/Info.antt =====
-- go/go2nix/pkg/buildinfo/buildinfo.go: the build information of a binary. The module path of the
-- go.mod is an argument, `none` where there is no module directive, and so are the lines of the
-- go.sum, which end at one that is longer than the scanner's buffer. Quoting what `BuildInfo.String`
-- prints is left out.
pub mod Sums
pub mod Order
use go2nix.Base.{
  List, [], ◌∷◌, ◌++◌, Bool, true, not, ◌||◌, ◌&&◌, Option, none, some, Text, codes, text_eq,
  text_leb, has_prefix, cut_suffix, Dict, lookup, insert, Result, ok, err, if◌then◌else◌, map,
}
use go2nix.BuildInfo.Spaces.{trim_space, fields}
use go2nix.BuildInfo.Godebug.{Setting, fips140_enabled, value_of}

-- A module, and one that is replaced by another.
pub data ModDep : Type 0 where
  mod_dep : (path version : Text) → ModDep
  dep_replaced : (path version : Text) → (replace : ModDep) → ModDep

-- `debug.Module`
pub data DebugModule : Type 0 where
  debug_module : (path version sum : Text) → DebugModule
  debug_replaced : (path version : Text) → (replace : DebugModule) → DebugModule

abbrev pub version_or_devel : Text → Text
version_or_devel version = if text_eq version [] then codes "(devel)" else version

unfoldable pub debug_mod_from_dep : ModDep → Dict Text → DebugModule
debug_mod_from_dep (dep_replaced path version other) sums =
    debug_replaced path (version_or_devel version) (debug_mod_from_dep other sums)
debug_mod_from_dep (mod_dep path version) sums = debug_module path (version_or_devel version) (
    if not (text_eq version [])
    then value_of (lookup (path ++ (codes "@" ++ version)) sums)
    else [])

pub record BuildSettings : Type 0 where
  pub build_mode : Text
  pub tags : Text
  pub default_godebug : Text
  pub cgo_enabled : Text
  pub goarch : Text
  pub goarch_level : Text
  pub gofips140 : Text
  pub goos : Text

abbrev pub arch_level_vars : Dict Text
arch_level_vars =
    (codes "386", codes "GO386")
    ∷ (codes "amd64", codes "GOAMD64")
    ∷ (codes "arm", codes "GOARM")
    ∷ (codes "arm64", codes "GOARM64")
    ∷ (codes "mips", codes "GOMIPS")
    ∷ (codes "mipsle", codes "GOMIPS")
    ∷ (codes "mips64", codes "GOMIPS64")
    ∷ (codes "mips64le", codes "GOMIPS64")
    ∷ (codes "ppc64", codes "GOPPC64")
    ∷ (codes "ppc64le", codes "GOPPC64")
    ∷ (codes "riscv64", codes "GORISCV64")
    ∷ (codes "wasm", codes "GOWASM")
    ∷ []

unfoldable pub arch_level_var : Text → Text
arch_level_var goarch = value_of (lookup goarch arch_level_vars)

abbrev pub add_if : Bool → Text → Text → List Setting
add_if condition key value = if condition then record { key = key; value = value } ∷ [] else []

abbrev pub add_set : Text → Text → List Setting
add_set key value = add_if (not (text_eq value [])) key value

unfoldable pub to_debug_settings : BuildSettings → List Setting
unfolding arch_level_var
to_debug_settings s =
    add_set (codes "-buildmode") s.build_mode
    ++ (add_if true (codes "-compiler") (codes "gc")
        ++ (add_set (codes "-tags") s.tags
            ++ (add_if true (codes "-trimpath") (codes "true")
                ++ (add_set (codes "DefaultGODEBUG") s.default_godebug
                    ++ (add_set (codes "CGO_ENABLED") s.cgo_enabled
                        ++ (add_set (codes "GOARCH") s.goarch
                            ++ (add_if (fips140_enabled s.gofips140) (codes "GOFIPS140") s.gofips140
                                ++ (add_set (codes "GOOS") s.goos
                                    ++ add_if
                                        (not (text_eq (arch_level_var s.goarch) [])
                                          && not (text_eq s.goarch_level []))
                                        (arch_level_var s.goarch) s.goarch_level))))))))

abbrev pub ends_in : Text → Text → Bool
ends_in s suffix = elim (cut_suffix s suffix) [ none ↦ not true | some _ ↦ true ]

-- What the loop of readGoSum does with the fields of a line.
abbrev pub add_fields : List Text → Dict Text → Dict Text
add_fields [] sums = sums
add_fields (_ ∷ []) sums = sums
add_fields (_ ∷ _ ∷ []) sums = sums
add_fields (path ∷ version ∷ sum ∷ []) sums =
    if ends_in version (codes "/go.mod")
    then sums
    else insert (path ++ (codes "@" ++ version)) sum sums
add_fields (_ ∷ _ ∷ _ ∷ _ ∷ _) sums = sums

unfoldable pub add_line : Text → Dict Text → Dict Text
add_line raw sums =
    let line = trim_space raw in
    if text_eq line [] || has_prefix line (codes "//") then sums else add_fields (fields line) sums

abbrev pub add_lines : List Text → Dict Text → Dict Text
add_lines [] sums = sums
add_lines (line ∷ lines) sums = add_lines lines (add_line line sums)

unfoldable pub read_go_sum : Option (List Text) → Dict Text
unfolding add_line
read_go_sum none = []
read_go_sum (some lines) = add_lines lines []

abbrev pub dep_path : ModDep → Text
dep_path (mod_dep path _) = path
dep_path (dep_replaced path _ _) = path

-- `sort.Slice` by path; no two of the modules of a build have the same path.
abbrev pub insert_by_path : ModDep → List ModDep → List ModDep
insert_by_path d [] = d ∷ []
insert_by_path d (e ∷ ds) =
    let rest = e ∷ insert_by_path d ds in
    if text_leb (dep_path d) (dep_path e) then d ∷ e ∷ ds else rest

unfoldable pub sort_by_path : List ModDep → List ModDep
sort_by_path [] = []
sort_by_path (d ∷ ds) = insert_by_path d (sort_by_path ds)

-- `debug.BuildInfo`
pub record BuildInformation : Type 0 where
  pub go_version : Text
  pub path : Text
  pub main : DebugModule
  pub deps : List DebugModule
  pub settings : List Setting

pub data ModinfoError : Type 0 where
  no_module_directive : ModinfoError

-- `info` of GenerateModinfo.
unfoldable pub build_information :
    Option Text
    → Option (List Text)
    → Text
    → Text
    → List ModDep
    → BuildSettings
    → Result ModinfoError BuildInformation
unfolding to_debug_settings read_go_sum sort_by_path debug_mod_from_dep
build_information none sum_lines main_path go_version deps settings = err no_module_directive
build_information (some module_path) sum_lines main_path go_version deps settings =
    let sums = read_go_sum sum_lines in
    ok (record {
      go_version = go_version;
      path = if text_eq main_path [] then module_path else main_path;
      main = debug_module module_path (codes "(devel)") [];
      deps = map (λ d. debug_mod_from_dep d sums) (sort_by_path deps);
      settings = to_debug_settings settings;
    })
