-- ===== src/Graph/Tests.antt =====
-- The theorems on go/go2nix/pkg/resolve/graph.go at a small program.
use go2nix.Base.{
  ℕ, List, [], ◌∷◌, ◌++◌, ◌≡◌, ◌≢◌, refl, sym, ap, ◌∙◌, ◌⊎◌, ◌↔◌, inl, inr, true, false, Bool-cases,
  Option, none, some, Text, codes, text_eq, Dict, lookup, keys, Memᴰ, ok, err,
}
use mathlib.Core.List.Memᴰ
use go2nix.Lock.Mods.{ModVersion, GoMod}
use go2nix.Lock.Check.{Lockfile, check, required_key}
use go2nix.Toposort.{import_cycle}
use go2nix.Toposort.Walk.{Leads, Reaches}
use go2nix.Graph.Packages.{Module, PkgFiles, Pkg, cgo_imports, needs_cgo, inject, is_local, mod_key}
use go2nix.Graph.{
  resolved_files, ResolvedPkg, missing_module, third_party, imports_in, build_package_graph,
  topo_sort,
}
use go2nix.Graph.Cgo.{inject_imports}
use go2nix.Graph.Order.{Follows, topo_sort_order}
use go2nix.Graph.Resolved.{
  IsIn, Comes, Misses, build_package_graph_cases, check-build_package_graph,
}

abbrev pub show : Text → Text → Text
show path version = path ++ (codes "@" ++ version)

abbrev pub rel : Text → Text → Option Text
rel root dir = none

abbrev pub no_files : PkgFiles
no_files = record {
  go_files = [];
  cgo_files = [];
  c_files = [];
  cxx_files = [];
  m_files = [];
  f_files = [];
  s_files = [];
  h_files = [];
  syso_files = [];
  swig_files = [];
  swig_cxx_files = [];
  embed_patterns = [];
  embed_files = [];
}

abbrev pub main_module : Module
main_module = record {
  path = codes "m";
  version = [];
  go_version = codes "1.22";
  main = true;
  replace = none;
}

-- `a`, which is fetched from a fork.
abbrev pub a_module : Module
a_module = record {
  path = codes "a";
  version = codes "v1";
  go_version = codes "1.20";
  main = false;
  replace = some (record { path = codes "fork"; version = codes "v2" });
}

abbrev pub package_of : Text → Text → List Text → PkgFiles → Module → Pkg
package_of import_path name imports files m = record {
  import_path = import_path;
  name = name;
  dir = [];
  files = files;
  standard = false;
  imports = imports;
  default_godebug = [];
  pkg_module = some m;
}

abbrev pub main_pkg : Pkg
main_pkg =
    package_of (codes "m/cmd") (codes "main") (codes "fmt" ∷ codes "a/x" ∷ []) no_files main_module

abbrev pub a_pkg : Pkg
a_pkg =
    package_of (codes "a/x") (codes "x") (codes "unsafe" ∷ [])
      (record no_files { cgo_files = codes "c.go" ∷ [] }) a_module

injected : (inject a_pkg).imports ≡ codes "unsafe" ∷ codes "runtime/cgo" ∷ codes "syscall" ∷ []
unfolding inject
injected = refl

syscall_here :
    ((added : List Text) × ((inject a_pkg).imports ≡ a_pkg.imports ++ added))
    × (Memᴰ (codes "syscall") (inject a_pkg).imports ↔ (
        Memᴰ (codes "syscall") a_pkg.imports
        ⊎ ((needs_cgo a_pkg.files ≡ true) × Memᴰ (codes "syscall") cgo_imports)))
syscall_here = inject_imports a_pkg (codes "syscall")

abbrev fods : Dict ℕ
fods = (codes "a@v2", 7) ∷ []

abbrev main_resolved : ResolvedPkg ℕ
main_resolved = record {
  import_path = codes "m/cmd";
  mod_key = [];
  mod_path = [];
  files = resolved_files no_files;
  imports = main_pkg.imports;
  local = true;
  fod_path = none;
  fetch_path = [];
  version = [];
  subdir = codes "cmd";
  name = codes "main";
  go_version = codes "1.22";
  default_godebug = [];
}

abbrev a_resolved : ResolvedPkg ℕ
a_resolved = record {
  import_path = codes "a/x";
  mod_key = codes "a@v2";
  mod_path = codes "a";
  files = resolved_files a_pkg.files;
  imports = a_pkg.imports;
  local = false;
  fod_path = some 7;
  fetch_path = codes "fork";
  version = codes "v2";
  subdir = codes "x";
  name = codes "x";
  go_version = codes "1.20";
  default_godebug = [];
}

abbrev graph : Dict (ResolvedPkg ℕ)
graph = (codes "m/cmd", main_resolved) ∷ (codes "a/x", a_resolved) ∷ []

built : build_package_graph show rel (main_pkg ∷ a_pkg ∷ []) fods (codes "/src") ≡ ok graph
unfolding build_package_graph
built = refl

stale_lockfile :
    build_package_graph {StorePath = ℕ} show rel (main_pkg ∷ a_pkg ∷ []) [] (codes "/src")
    ≡ err (missing_module (codes "a@v2"))
unfolding build_package_graph
stale_lockfile = refl

sorted : topo_sort graph ≡ ok (a_resolved ∷ main_resolved ∷ [])
unfolding topo_sort
sorted = refl

topo_sort_order_example :
    (((result : List (ResolvedPkg ℕ)) × (topo_sort graph ≡ ok result)
        × ((k : Text) (rp : ResolvedPkg ℕ)
            → lookup k graph ≡ some rp
            → Follows graph (imports_in graph) k rp result))
      ⊎ ((c : Text) × (topo_sort graph ≡ err (import_cycle c)) × Leads (imports_in graph) c c))
    × (((k c : Text)
          → Memᴰ k (keys graph)
          → Reaches (imports_in graph) k c
          → ¬ Leads (imports_in graph) c c)
        → (result : List (ResolvedPkg ℕ)) × (topo_sort graph ≡ ok result))
topo_sort_order_example = topo_sort_order graph

build_package_graph_cases_example :
    ((g : Dict (ResolvedPkg ℕ)) × (build_package_graph show rel
          (main_pkg ∷ a_pkg ∷ [])
          fods
          (codes "/src")
        ≡ ok g)
      × ((pkg : Pkg)
          → Memᴰ pkg (main_pkg ∷ a_pkg ∷ [])
          → IsIn show rel fods (codes "/src") g pkg.import_path)
      × ((k : Text) (rp : ResolvedPkg ℕ)
          → lookup k g ≡ some rp
          → Comes show rel fods (codes "/src") (main_pkg ∷ a_pkg ∷ []) k rp))
    ⊎ ((k : Text) × (pkg : Pkg) × (build_package_graph show rel
            (main_pkg ∷ a_pkg ∷ [])
            fods
            (codes "/src")
          ≡ err (missing_module k))
        × Memᴰ pkg (main_pkg ∷ a_pkg ∷ [])
        × Misses show rel fods (codes "/src") k pkg)
build_package_graph_cases_example =
    build_package_graph_cases show rel fods (codes "/src") (main_pkg ∷ a_pkg ∷ [])

abbrev a_required : ModVersion
a_required = record { path = codes "a"; version = codes "v1" }

abbrev go_mod : GoMod
go_mod = record {
  require = a_required ∷ [];
  replace =
      record {
        old = record { path = codes "a"; version = [] };
        new = record { path = codes "fork"; version = codes "v2" };
      }
      ∷ [];
}

abbrev lock : Lockfile
lock = record {
  mods = (codes "a@v2", codes "sha256-x") ∷ [];
  replaces = (codes "a@v2", codes "fork") ∷ [];
}

accepted : check show go_mod lock ≡ ok tt
unfolding check
accepted = refl

stored : (k h : Text) → lookup k lock.mods ≡ some h → lookup k fods ≢ none
stored k h e n = elim (Bool-cases (text_eq (codes "a@v2") k)) [
  | inl t ↦ cc (rw t at n)
  | inr t ↦ cc (rw t at e)
]

required :
    (pkg : Pkg) (m : Module)
    → Memᴰ pkg (main_pkg ∷ a_pkg ∷ [])
    → third_party pkg.pkg_module ≡ some m
    → (req : ModVersion) × Memᴰ req go_mod.require
      × (required_key show go_mod req ≡ some (mod_key show m))
unfolding required_key mod_key is_local
required pkg m n t = elim (Memᴰ.cases_cons n) [
  | inl e ↦ let none_there : none ≡ some m = ap (λ p. third_party p.pkg_module) (sym e) ∙ t in cc
  | inr n' ↦
      let found : some a_module ≡ some m =
        ap (λ p. third_party p.pkg_module) (sym (Memᴰ.eq_of_singleton n')) ∙ t in
      let same : a_module ≡ m = cc in
      (a_required, Memᴰ.head refl, ap (λ x. some (mod_key show x)) same)
]

graph_built :
    (g : Dict (ResolvedPkg ℕ)) × (build_package_graph show rel
        (main_pkg ∷ a_pkg ∷ [])
        fods
        (codes "/src")
      ≡ ok g)
graph_built =
    check-build_package_graph show rel fods (codes "/src") go_mod lock (main_pkg ∷ a_pkg ∷ [])
      accepted stored required
