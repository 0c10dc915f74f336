-- ===== src/Graph.antt =====
-- go/go2nix/pkg/resolve/graph.go: the graph of packages that are built, and their order. A store
-- path is a parameter, `StorePath`, and so is `rel`, `filepath.Rel`. What the resolver sets later,
-- the source path and the .drv path, is not a part of a package here.
pub mod Packages
pub mod Cgo
pub mod Resolved
pub mod Order
pub mod Tests
use go2nix.Base.{
  ℕ, suc, List, [], ◌∷◌, ◌++◌, Bool, true, false, not, ◌||◌, ◌&&◌, Option, none, some, Text, codes,
  text_eq, trim_prefix, length, flat_map, Dict, lookup, insert, keys, Result, ok, err, ◌>>=◌,
  if◌then◌else◌,
}
use go2nix.Toposort.{SortError, toposort}
use go2nix.Graph.Packages.{Module, PkgFiles, Pkg, is_local, effective_version, mod_key, fetch_path}

-- The files that a resolved package keeps.
pub record ResolvedFiles : Type 0 where
  pub go_files : List Text
  pub cgo_files : List Text
  pub c_files : List Text
  pub cxx_files : List Text
  pub f_files : List Text
  pub s_files : List Text
  pub h_files : List Text
  pub syso_files : List Text
  pub embed_patterns : List Text
  pub embed_files : List Text

abbrev pub resolved_files : PkgFiles → ResolvedFiles
resolved_files files = record {
  go_files = files.go_files;
  cgo_files = files.cgo_files;
  c_files = files.c_files;
  cxx_files = files.cxx_files;
  f_files = files.f_files;
  s_files = files.s_files;
  h_files = files.h_files;
  syso_files = files.syso_files;
  embed_patterns = files.embed_patterns;
  embed_files = files.embed_files;
}

pub record ResolvedPkg (StorePath : Type 0) : Type 0 where
  pub import_path : Text
  pub mod_key : Text
  pub mod_path : Text
  pub files : ResolvedFiles
  pub imports : List Text
  pub local : Bool
  pub fod_path : Option StorePath
  pub fetch_path : Text
  pub version : Text
  pub subdir : Text
  pub name : Text
  pub go_version : Text
  pub default_godebug : Text

pub data GraphError : Type 0 where
  missing_module : (key : Text) → GraphError

abbrev pub go_version_of : Option Module → Text
go_version_of none = []
go_version_of (some m) = m.go_version

-- A package's path under the path of its module.
abbrev pub under_module : Text → Text → Text
under_module import_path mod_path = trim_prefix import_path (mod_path ++ codes "/")

abbrev pub third_party_subdir : Text → Text → Text
third_party_subdir import_path mod_path =
    if text_eq import_path mod_path then [] else under_module import_path mod_path

abbrev pub or_empty : Option Text → Text
or_empty none = []
or_empty (some s) = s

abbrev pub fallback_subdir : Text → Option Module → Text
fallback_subdir import_path none = []
fallback_subdir import_path (some m) =
    if not (text_eq import_path m.path) then under_module import_path m.path else []

unfoldable pub local_subdir : (Text → Text → Option Text) → Text → Pkg → Text
local_subdir rel src_root pkg =
    if not (text_eq pkg.dir []) && not (text_eq src_root [])
    then or_empty (rel src_root pkg.dir)
    else fallback_subdir pkg.import_path pkg.pkg_module

-- The module that a package comes from, if it is a third party's.
abbrev pub third_party : Option Module → Option Module
unfolding is_local
third_party none = none
third_party (some m) = if is_local (some m) then none else some m

module _ {StorePath : Type 0} where
  module _ (show : Text → Text → Text) (rel : Text → Text → Option Text) where
    abbrev pub local_pkg : Text → Pkg → ResolvedPkg StorePath
    local_pkg src_root pkg = record {
      import_path = pkg.import_path;
      mod_key = [];
      mod_path = [];
      files = resolved_files pkg.files;
      imports = pkg.imports;
      local = true;
      fod_path = none;
      fetch_path = [];
      version = [];
      subdir = local_subdir rel src_root pkg;
      name = pkg.name;
      go_version = go_version_of pkg.pkg_module;
      default_godebug = pkg.default_godebug;
    }

    abbrev pub third_party_pkg : Module → StorePath → Pkg → ResolvedPkg StorePath
    unfolding effective_version
    third_party_pkg m path pkg = record {
      import_path = pkg.import_path;
      mod_key = mod_key show m;
      mod_path = m.path;
      files = resolved_files pkg.files;
      imports = pkg.imports;
      local = false;
      fod_path = some path;
      fetch_path = fetch_path m;
      version = effective_version m;
      subdir = third_party_subdir pkg.import_path m.path;
      name = pkg.name;
      go_version = m.go_version;
      default_godebug = pkg.default_godebug;
    }

    -- The body of the loop of buildPackageGraph.
    unfoldable pub resolve_pkg :
        Dict StorePath → Text → Pkg → Result GraphError (ResolvedPkg StorePath)
    unfolding is_local mod_key fetch_path effective_version local_subdir
    resolve_pkg fod_paths src_root pkg = elim (third_party pkg.pkg_module) [
      | none ↦ ok (local_pkg src_root pkg)
      | some m ↦ elim (lookup (mod_key show m) fod_paths) [
        | none ↦ err (missing_module (mod_key show m))
        | some path ↦ ok (third_party_pkg m path pkg)
      ]
    ]

    unfoldable pub add_packages :
        Dict StorePath
        → Text
        → List Pkg
        → Dict (ResolvedPkg StorePath)
        → Result GraphError (Dict (ResolvedPkg StorePath))
    unfolding resolve_pkg
    add_packages fod_paths src_root [] result = ok result
    add_packages fod_paths src_root (pkg ∷ pkgs) result =
        resolve_pkg fod_paths src_root pkg >>= λ rp.
        add_packages fod_paths src_root pkgs (insert pkg.import_path rp result)

    unfoldable pub build_package_graph :
        List Pkg → Dict StorePath → Text → Result GraphError (Dict (ResolvedPkg StorePath))
    unfolding add_packages
    build_package_graph pkgs fod_paths src_root = add_packages fod_paths src_root pkgs []

  abbrev pub imports_or_none : Option (ResolvedPkg StorePath) → List Text
  imports_or_none none = []
  imports_or_none (some rp) = rp.imports

  abbrev pub imports_in : Dict (ResolvedPkg StorePath) → Text → List Text
  imports_in pkgs key = imports_or_none (lookup key pkgs)

  -- Every key that the sort can come to.
  abbrev pub graph_keys : Dict (ResolvedPkg StorePath) → List Text
  graph_keys pkgs = keys pkgs ++ flat_map (imports_in pkgs) (keys pkgs)

  -- The sort, on fuel for every key.
  unfoldable pub topo_sort :
      Dict (ResolvedPkg StorePath) → Result SortError (List (ResolvedPkg StorePath))
  unfolding toposort
  topo_sort pkgs = toposort pkgs (imports_in pkgs) (suc (length (graph_keys pkgs)))
