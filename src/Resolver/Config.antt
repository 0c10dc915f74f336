-- ===== src/Resolver/Config.antt =====
-- go/go2nix/pkg/resolve/resolve.go: what the resolver is run with, what it asks of Nix, and the
-- texts that it makes of paths and flags.
use go2nix.Base.{
  ℕ, List, [], ◌∷◌, ◌++◌, Bool, not, ◌||◌, Option, none, some, Text, codes, text_eq, cut,
  cut_prefix, Dict, Result, ok, err, if◌then◌else◌,
}
use go2nix.BuildInfo.Spaces.{fields}
use go2nix.BuildInfo.Info.{BuildInformation}
use go2nix.Manifest.{CompileManifest}
use go2nix.NixDrv.Aterm.{GoDerivation, AtermError}
use go2nix.NixDrv.Placeholder.{StorePath, PlaceholderError}

-- Config after prepare, without what only opens files or connections.
pub record Config : Type 0 where
  pub system : Text
  pub go_bin : Text
  pub stdlib_path : Text
  pub go2nix_bin : Text
  pub bash_bin : Text
  pub pname : Text
  pub tags : Text
  pub ld_flags : Text
  pub cgo_enabled : Text
  pub gc_flags : Text
  pub pgo_profile : Text
  pub ca_cert : Text
  pub netrc_file : Text
  pub coreutils_dir : Text
  pub cc_dir : Text
  pub cc_path : Text
  pub cxx_path : Text
  pub cc_suffix_salt : Text
  pub all_override_paths : List Text
  pub all_override_lib_dirs : List Text
  pub build_mode : Text
  pub go_env : Dict Text

-- What is not written in Go here: SHA-256, go-nix's base 32, output paths and paths of derivations,
-- nixhash, x/mod's escapes, the printing of JSON, and the file system. `walk_depth` bounds how deep
-- propagated inputs are followed; `stdlib_files` are the files under the standard library, relative to
-- it, `module_path` and `sum_lines` what the go.mod and the go.sum say, and `modinfo_line` is the
-- quoted text of the information about a build.
pub record Tools : Type 0 where
  pub sha256 : Text → List ℕ
  pub nixbase32 : List ℕ → Text
  pub calculate_output_paths : GoDerivation → Option (Dict Text)
  pub parse_any : Text → Option (Text × List ℕ)
  pub go_drv_path : GoDerivation → Option StorePath
  pub escape_path : Text → Option Text
  pub escape_version : Text → Option Text
  pub marshal_manifest : CompileManifest → Option Text
  pub is_dir : Text → Bool
  pub propagated_inputs : Text → Option Text
  pub walk_depth : ℕ
  pub stdlib_files : Option (List Text)
  pub module_path : Option Text
  pub sum_lines : Option (List Text)
  pub modinfo_line : BuildInformation → Text

-- The errors of the resolver. `nil_path` stands for the panic at a package without the store path
-- of its module.
pub data ResolveError : Type 0 where
  no_staged_source nil_path no_drv_path : (import_path : Text) → ResolveError
  no_placeholder : (import_path : Text) → PlaceholderError → ResolveError
  drv_path_failed : (name : Text) → AtermError → ResolveError
  not_marshaled not_escaped no_modinfo : (name : Text) → ResolveError
  invalid_module_key : (key : Text) → ResolveError
  no_main_packages no_stdlib : ResolveError

abbrev pub map_err : {E F A : Type 0} → (E → F) → Result E A → Result F A
map_err f (ok a) = ok a
map_err f (err e) = err (f e)

-- `strings.Join`
abbrev pub join : List Text → Text → Text
join [] sep = []
join (s ∷ []) sep = s
join (s ∷ t ∷ rest) sep = s ++ (sep ++ join (t ∷ rest) sep)

abbrev pub store_prefix : Text
store_prefix = codes "/nix/store/"

-- The path up to the slash behind the entry of the store.
abbrev pub store_entry : Text → Option (Text × Text) → Text
store_entry path none = path
store_entry path (some (entry, _)) = store_prefix ++ entry

unfoldable pub store_dir_of : Text → Text
store_dir_of path = elim (cut_prefix path store_prefix) [
  | none ↦ path
  | some rest ↦ store_entry path (cut rest b'/')
]

abbrev pub is_sanitizer_flag : Text → Bool
is_sanitizer_flag f =
    text_eq f (codes "-race") || text_eq f (codes "-msan") || text_eq f (codes "-asan")

abbrev pub sanitizer_flags : List Text → List Text
sanitizer_flags [] = []
sanitizer_flags (f ∷ rest) =
    if is_sanitizer_flag f then f ∷ sanitizer_flags rest else sanitizer_flags rest

unfoldable pub extract_sanitizer_flags : Text → Text
extract_sanitizer_flags gc_flags = join (sanitizer_flags (fields gc_flags)) (codes " ")

abbrev pub shared_flags : Text → Text → Text
shared_flags build_mode gc_flags =
    if text_eq build_mode (codes "pie")
    then (if not (text_eq gc_flags []) then codes "-shared " ++ gc_flags else codes "-shared")
    else gc_flags

-- Fields of the empty text are none, as the early return has it.
unfoldable pub build_compile_gc_flags : Text → Text → List Text
build_compile_gc_flags build_mode gc_flags = fields (shared_flags build_mode gc_flags)

-- `StorePath.Absolute` of go-nix
abbrev pub absolute : Tools → StorePath → Text
absolute tools sp = store_prefix ++ (tools.nixbase32 sp.digest ++ (codes "-" ++ sp.name))
