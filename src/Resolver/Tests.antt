-- ===== src/Resolver/Tests.antt =====
-- The theorems on the resolver at a small program: a main package that imports one of a module.
use go2nix.Base.{
  List, [], ◌∷◌, ◌++◌, ◌≡◌, refl, ◌↔◌, inl, inr, Bool, true, false, Option, none, some, Text, codes,
  text_eq, text_eq_iff, any, all, arith, Dict, lookup, keys, Memᴰ, ok, err, if◌then◌else◌,
}
use mathlib.Core.List.Memᴰ
use go2nix.Graph.Packages.{is_empty, effective_version}
use go2nix.Graph.{local_pkg, third_party_pkg, imports_in, build_package_graph, topo_sort}
use go2nix.Graph.Tests.{show, rel, main_pkg, a_pkg, a_module}
use go2nix.Toposort.Walk.{Reaches}
use go2nix.NixDrv.Placeholder.{StorePath}
use go2nix.NixDrv.Derivation.{Derivation}
use go2nix.Resolver.Config.{
  Config, Tools, store_dir_of, extract_sanitizer_flags, build_compile_gc_flags, absolute,
}
use go2nix.Resolver.Package.{Package, path_of}
use go2nix.Resolver.Steps.{stage_local_sources, build_packages, register_package_derivations}
use go2nix.Resolver.Built.{IsDrvPath, NamesPaths, Marshals}
use go2nix.Resolver.Registered.{Accepts}
use go2nix.Resolver.Resolved.{graph_matches, resolve_registers, resolve_packages_finishes}
use go2nix.Resolver.Closure.{transitive_closure}
use go2nix.Resolver.Closure.Exact.{Ascending, transitive_closure_exact}
use go2nix.Resolver.Parts.{main_packages}
use go2nix.Resolver.Run.{resolve_packages}

abbrev pub tools : Tools
tools = record {
  sha256 = λ t. t;
  nixbase32 = λ digest. digest;
  calculate_output_paths = λ _. none;
  parse_any = λ _. none;
  go_drv_path = λ g. some (record { name = g.name ++ codes ".drv"; digest = codes "d" });
  escape_path = λ t. some t;
  escape_version = λ t. some t;
  marshal_manifest = λ m. some m.kind;
  is_dir = λ _. true;
  propagated_inputs = λ _. none;
  walk_depth = 3;
  stdlib_files = some (codes "fmt.a" ∷ codes "README" ∷ []);
  module_path = some (codes "m");
  sum_lines = none;
  modinfo_line = λ info. codes "modinfo " ++ info.path;
}

abbrev pub config : Config
config = record {
  system = codes "x86_64-linux";
  go_bin = codes "/nix/store/g-go/bin/go";
  stdlib_path = codes "/nix/store/s-std";
  go2nix_bin = codes "/nix/store/n-go2nix/bin/go2nix";
  bash_bin = codes "/nix/store/b-bash/bin/bash";
  pname = codes "tool";
  tags = [];
  ld_flags = [];
  cgo_enabled = [];
  gc_flags = codes "-race";
  pgo_profile = [];
  ca_cert = [];
  netrc_file = [];
  coreutils_dir = codes "/nix/store/c-coreutils";
  cc_dir = codes "/nix/store/k-cc";
  cc_path = codes "/nix/store/k-cc/bin/cc";
  cxx_path = [];
  cc_suffix_salt = [];
  all_override_paths = [];
  all_override_lib_dirs = [];
  build_mode = codes "pie";
  go_env = (codes "GOARCH", codes "amd64") ∷ [];
}

go_store_dir : store_dir_of config.go_bin ≡ codes "/nix/store/g-go"
unfolding store_dir_of
go_store_dir = refl

race : extract_sanitizer_flags (codes "-N  -race") ≡ codes "-race"
unfolding extract_sanitizer_flags
race = refl

shared : build_compile_gc_flags (codes "pie") (codes "-race") ≡ codes "-shared" ∷ codes "-race" ∷ []
unfolding build_compile_gc_flags
shared = refl

abbrev pub path_at : Text → StorePath
path_at name = record { name = name; digest = codes "x" }

abbrev fod_paths : Dict StorePath
fod_paths = (codes "a@v2", path_at (codes "mod")) ∷ []

abbrev src_root : Text
src_root = codes "/src"

abbrev main_resolved : Package
main_resolved = local_pkg show rel src_root main_pkg

abbrev pub a_resolved : Package
a_resolved = third_party_pkg show rel a_module (path_at (codes "mod")) a_pkg

abbrev graph : Dict Package
graph = (codes "m/cmd", main_resolved) ∷ (codes "a/x", a_resolved) ∷ []

abbrev sorted : List Package
sorted = a_resolved ∷ main_resolved ∷ []

abbrev store_add : Text → Text → List Text → Option StorePath
store_add name dir files = some (path_at name)

abbrev staged : Dict StorePath
staged = (codes "m/cmd", path_at (codes "gosrc-m-cmd")) ∷ []

-- A store that adds a derivation if it has those that this one needs.
abbrev has_inputs : Derivation → List Text → Bool
has_inputs d store = all (λ k. any (text_eq k) store) (keys d.input_drvs)

abbrev store_at : Derivation → List Text → Option StorePath
store_at d store = elim (path_of tools d.name d) [
  | err e ↦ none
  | ok p ↦ if has_inputs d store then some p else none
]

abbrev add : Derivation → List Text → Option (StorePath × List Text)
add d store = elim (store_at d store) [ none ↦ none | some p ↦ some (p, absolute tools p ∷ store) ]

abbrev Holds : List Text → Text → Type 0
Holds store k = Memᴰ k store

graph_built : build_package_graph show rel (main_pkg ∷ a_pkg ∷ []) fod_paths src_root ≡ ok graph
unfolding build_package_graph
graph_built = refl

graph-sorted : topo_sort graph ≡ ok sorted
unfolding topo_sort effective_version
graph-sorted = refl

sources_staged : stage_local_sources tools.sha256 store_add sorted ≡ ok (1, staged)
unfolding stage_local_sources effective_version
sources_staged = refl

any_of_Memᴰ : (k : Text) (store : List Text) → Memᴰ k store → any (text_eq k) store ≡ true
any_of_Memᴰ k [] m = absurd (Memᴰ.not-nil m)
any_of_Memᴰ k (j ∷ store) m = elim (Memᴰ.cases_cons m) [
  | inl e ↦ rw ((text_eq_iff k j).1 e) refl
  | inr t ↦ ground (arith, any_of_Memᴰ k store t)
]

all_there :
    (ks store : List Text)
    → ((k : Text) → Memᴰ k ks → Memᴰ k store)
    → all (λ k. any (text_eq k) store) ks ≡ true
all_there [] store h = refl
all_there (k ∷ ks) store h =
    rw (any_of_Memᴰ k store (h k (Memᴰ.head refl))) (all_there ks store (λ j m. h j (Memᴰ.tail m)))

store_at_path :
    (d : Derivation) (s : List Text) (p : StorePath)
    → path_of tools d.name d ≡ ok p
    → has_inputs d s ≡ true
    → store_at d s ≡ some p
store_at_path d s p q h = rw (q, store_at, h) refl

add-Accepts : Accepts tools add Holds
add-Accepts d s p path inputs =
    let there : has_inputs d s ≡ true = all_there (keys d.input_drvs) s inputs in
    (
      absolute tools p ∷ s,
      rw (store_at_path d s p (path d.name) there, add) refl,
      Memᴰ.head refl,
      λ k m. Memᴰ.tail m,
    )

named_paths : NamesPaths tools
named_paths g = (_, refl, refl)

marshals : Marshals tools
marshals m = (m.kind, refl)

has_main : is_empty (main_packages sorted) ≡ false
unfolding main_packages effective_version
has_main = refl

resolve_packages_finishes_example :
    (final : StorePath) × (store : List Text) × (resolve_packages tools show rel add store_add
        config [] fod_paths src_root
        (main_pkg ∷ a_pkg ∷ [])
        []
      ≡ ok (final, store))
    × Memᴰ (absolute tools final) store
resolve_packages_finishes_example =
    resolve_packages_finishes tools show rel fod_paths src_root add Holds store_add config []
      (main_pkg ∷ a_pkg ∷ []) graph sorted 1 staged [] named_paths marshals add-Accepts (λ e. cc)
      graph_built graph-sorted sources_staged has_main

resolve_registers_example :
    (drvs : List Derivation) × (paths : Dict StorePath) × (store : List Text) × (build_packages
        tools config graph staged []
        (codes "build")
        sorted
        []
      ≡ ok (drvs, paths))
    × (register_package_derivations tools add drvs [] ≡ ok store)
    × ((k : Text) (pkg : Package)
        → lookup k graph ≡ some pkg
        → (p : StorePath) × (lookup pkg.import_path paths ≡ some p) × IsDrvPath p)
    × ((j : Text) (p : StorePath) → lookup j paths ≡ some p → Memᴰ (absolute tools p) store)
resolve_registers_example =
    resolve_registers tools show rel fod_paths src_root add Holds store_add config []
      (codes "build") (main_pkg ∷ a_pkg ∷ []) graph sorted 1 staged [] named_paths marshals
      add-Accepts graph_built graph-sorted sources_staged

closure_found : transitive_closure graph main_resolved ≡ sorted
unfolding transitive_closure effective_version
closure_found = refl

transitive_closure_exact_example :
    ((pkg : Package)
      → Memᴰ pkg (transitive_closure graph main_resolved) ↔ (
          (lookup pkg.import_path graph ≡ some pkg)
          × Reaches (imports_in graph) (codes "m/cmd") pkg.import_path))
    × Ascending (transitive_closure graph main_resolved)
transitive_closure_exact_example =
    transitive_closure_exact graph
      (graph_matches tools show rel fod_paths src_root (main_pkg ∷ a_pkg ∷ []) graph graph_built)
      main_resolved refl
