-- ===== src/Resolver/Parts.antt =====
-- What buildFinalDrv of go/go2nix/pkg/resolve/resolve.go takes of packages and of the configuration.
use go2nix.Base.{
  ℕ, List, [], ◌∷◌, ◌++◌, Bool, not, ◌&&◌, ◌||◌, Option, none, some, Text, codes, text_eq, any,
  cut_suffix, split, sort, ltb, lookup, Result, ok, err, if◌then◌else◌,
}
use go2nix.BuildInfo.Info.{ModDep, mod_dep, dep_replaced, BuildSettings, arch_level_var}
use go2nix.Compile.{last_of}
use go2nix.Graph.{or_empty}
use go2nix.NixDrv.Derivation.{Derivation, set_env, add_input_src}
use go2nix.Graph.Packages.{is_empty}
use go2nix.Resolver.Config.{Config, ResolveError, no_stdlib, join, store_dir_of}
use go2nix.Resolver.Package.{Package}

abbrev pub is_main : Package → Bool
is_main pkg = text_eq pkg.name (codes "main")

unfoldable pub main_packages : List Package → List Package
main_packages [] = []
main_packages (pkg ∷ pkgs) = if is_main pkg then pkg ∷ main_packages pkgs else main_packages pkgs

-- The import paths of the archives of the standard library, before they are sorted.
abbrev pub archives : List Text → List Text
archives [] = []
archives (file ∷ files) = elim (cut_suffix file (codes ".a")) [
  | none ↦ archives files
  | some imp ↦ imp ∷ archives files
]

unfoldable pub collect_stdlib_imports : Option (List Text) → Result ResolveError (List Text)
unfolding sort
collect_stdlib_imports none = err no_stdlib
collect_stdlib_imports (some files) = ok (sort (archives files))

unfoldable pub bin_name : Config → Package → ℕ → Text
bin_name cfg main_pkg mains =
    if ltb 1 mains then last_of (split main_pkg.import_path b'/') else cfg.pname

abbrev pub dep_of : Package → ModDep
dep_of pkg =
    if text_eq pkg.fetch_path pkg.mod_path
    then mod_dep pkg.mod_path pkg.version
    else dep_replaced pkg.mod_path pkg.version (mod_dep pkg.fetch_path pkg.version)

-- The loop of generateModinfo.
unfoldable pub module_deps : List Text → List Package → List ModDep
module_deps seen [] = []
module_deps seen (pkg ∷ pkgs) =
    let skipped = module_deps seen pkgs in
    let taken = dep_of pkg ∷ module_deps (pkg.mod_key ∷ seen) pkgs in
    if pkg.local || text_eq pkg.mod_key []
    then skipped
    else if any (text_eq pkg.mod_key) seen
    then skipped
    else taken

abbrev pub env_of : Config → Text → Text
env_of cfg key = or_empty (lookup key cfg.go_env)

-- `settings` of generateModinfo.
unfoldable pub build_settings : Config → Text → BuildSettings
unfolding arch_level_var
build_settings cfg default_godebug =
    let goarch = env_of cfg (codes "GOARCH") in
    let level_var = arch_level_var goarch in
    record {
      build_mode = cfg.build_mode;
      tags = cfg.tags;
      default_godebug = default_godebug;
      cgo_enabled =
          if text_eq cfg.cgo_enabled [] then env_of cfg (codes "CGO_ENABLED") else cfg.cgo_enabled;
      goarch = goarch;
      goarch_level = if text_eq level_var [] then [] else env_of cfg level_var;
      gofips140 = [];
      goos = env_of cfg (codes "GOOS");
    }

abbrev pub has_cgo : List Package → Bool
has_cgo pkgs = any (λ p. not (is_empty p.files.cgo_files)) pkgs

abbrev pub has_cxx : List Package → Bool
has_cxx pkgs = any (λ p. not (is_empty p.files.cxx_files)) pkgs

-- NIX_LDFLAGS for the libraries of overrides.
unfoldable pub set_lib_dirs : Config → Derivation → Derivation
set_lib_dirs cfg d =
    if not (text_eq cfg.cc_suffix_salt []) && not (is_empty cfg.all_override_lib_dirs)
    then set_env (codes "NIX_LDFLAGS_" ++ cfg.cc_suffix_salt)
        (codes "-L" ++ join cfg.all_override_lib_dirs (codes " -L")) d
    else d

unfoldable pub add_linker_cc : Config → Bool → Derivation → Derivation
unfolding set_lib_dirs
add_linker_cc cfg cgo d = if cgo then set_lib_dirs cfg (add_input_src cfg.cc_dir d) else d

-- The external linker, and what it needs where there is cgo.
unfoldable pub set_extld : Config → List Package → Derivation → Derivation
unfolding add_linker_cc
set_extld cfg closure d =
    if text_eq cfg.cc_path []
    then d
    else add_linker_cc cfg (has_cgo closure) (
        set_env (codes "extld")
          (if has_cxx closure && not (text_eq cfg.cxx_path []) then cfg.cxx_path else cfg.cc_path)
          d)

abbrev pub link_path_parts : Config → List Package → List Text
link_path_parts cfg closure =
    (cfg.coreutils_dir ++ codes "/bin")
    ∷ (if not (text_eq cfg.cc_path []) && has_cgo closure
        then (cfg.cc_dir ++ codes "/bin") ∷ []
        else [])

abbrev pub link_sources : Config → List Text
unfolding store_dir_of
link_sources cfg =
    store_dir_of cfg.bash_bin
    ∷ cfg.coreutils_dir
    ∷ store_dir_of cfg.go_bin
    ∷ cfg.stdlib_path
    ∷ cfg.all_override_paths
