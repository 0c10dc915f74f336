-- ===== src/Resolver/Steps.antt =====
-- go/go2nix/pkg/resolve/resolve.go: the loops over the sorted packages, which stage the sources of
-- local packages, build the derivations and register them. What Nix answers is an argument.
use go2nix.Base.{
  ℕ, ◌+◌, List, [], ◌∷◌, ◌++◌, Option, none, some, Text, codes, text_eq, Dict, insert, Result, ok,
  err, ◌>>=◌, if◌then◌else◌,
}
use go2nix.Graph.{ResolvedFiles}
use go2nix.NixDrv.Names.{sanitize_name}
use go2nix.NixDrv.Placeholder.{StorePath}
use go2nix.NixDrv.Derivation.{Derivation}
use go2nix.Resolver.Config.{Config, Tools, ResolveError, absolute}
use go2nix.Resolver.Package.{Package, Overrides, path_of, build_package_drv}

pub data StageError : Type 0 where
  not_staged : (import_path : Text) → StageError

-- The files that createFilteredPkgDir copies.
unfoldable pub filtered_files : ResolvedFiles → List Text
filtered_files files =
    files.go_files
    ++ (files.cgo_files
        ++ (files.c_files
            ++ (files.cxx_files
                ++ (files.f_files
                    ++ (files.s_files
                        ++ (files.h_files ++ (files.syso_files ++ files.embed_files)))))))

-- `store_add` answers to the name, the directory and the files of a filtered source, whether
-- copying or adding fails.
module _ (sha256 : Text → List ℕ) (store_add : Text → Text → List Text → Option StorePath) where
  unfoldable pub stage_local_source : Package → Result StageError StorePath
  unfolding filtered_files sanitize_name
  stage_local_source pkg =
      elim (store_add (codes "gosrc-" ++ sanitize_name sha256 pkg.import_path) pkg.subdir
        (filtered_files pkg.files)) [
          | none ↦ err (not_staged pkg.import_path)
          | some source ↦ ok source
        ]

  -- The loop, with what it has staged and how many.
  unfoldable pub stage_sources :
      List Package → ℕ × Dict StorePath → Result StageError (ℕ × Dict StorePath)
  unfolding stage_local_source
  stage_sources [] found = ok found
  stage_sources (pkg ∷ pkgs) (count, staged) =
      let rest = stage_local_source pkg >>= λ source.
      stage_sources pkgs (count + 1, insert pkg.import_path source staged) in
      let skipped = stage_sources pkgs (count, staged) in if pkg.local then rest else skipped

  unfoldable pub stage_local_sources : List Package → Result StageError (ℕ × Dict StorePath)
  unfolding stage_sources
  stage_local_sources pkgs = stage_sources pkgs (0, [])

pub data RegisterError : Type 0 where
  not_added : (name : Text) → RegisterError
  not_computed : ResolveError → RegisterError
  path_mismatch : (ours nix : Text) → RegisterError

module _ (tools : Tools) where
  -- The loop of step 7b.
  unfoldable pub build_packages :
      Config
      → Dict Package
      → Dict StorePath
      → Overrides
      → Text
      → List Package
      → Dict StorePath
      → Result ResolveError (List Derivation × Dict StorePath)
  unfolding build_package_drv
  build_packages cfg graph staged overrides script [] drv_paths = ok ([], drv_paths)
  build_packages cfg graph staged overrides script (pkg ∷ pkgs) drv_paths = do
    (drv, path) ← build_package_drv tools cfg graph drv_paths staged overrides script pkg
    (drvs, all_paths) ←
        build_packages cfg graph staged overrides script pkgs
          (insert pkg.import_path path drv_paths)
    ok (drv ∷ drvs, all_paths)

  -- `add` is DerivationAdd at what the store holds.
  module _ {Store : Type 0} (add : Derivation → Store → Option (StorePath × Store)) where
    unfoldable pub register_derivations : List Derivation → Store → Result RegisterError Store
    register_derivations [] s = ok s
    register_derivations (d ∷ drvs) s = elim (add d s) [
      | none ↦ err (not_added d.name)
      | some (_, s') ↦ register_derivations drvs s'
    ]

    -- A derivation that is added under the path that DrvPath gives.
    unfoldable pub register_package : Derivation → Store → Result RegisterError Store
    unfolding path_of
    register_package d s = elim (add d s) [
      | none ↦ err (not_added d.name)
      | some (nix_path, s') ↦ elim (path_of tools d.name d) [
        | err e ↦ err (not_computed e)
        | ok our_path ↦
            if text_eq (absolute tools nix_path) (absolute tools our_path)
            then ok s'
            else err (path_mismatch (absolute tools our_path) (absolute tools nix_path))
      ]
    ]

    unfoldable pub register_package_derivations :
        List Derivation → Store → Result RegisterError Store
    unfolding register_package
    register_package_derivations [] s = ok s
    register_package_derivations (d ∷ drvs) s =
        register_package d s >>= register_package_derivations drvs
