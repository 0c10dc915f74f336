-- ===== src/Resolver/Link.antt =====
-- buildFinalDrv of go/go2nix/pkg/resolve/resolve.go: the derivations that link the main packages,
-- and the one that collects several binaries.
use go2nix.Base.{
  ℕ, List, [], ◌∷◌, ◌++◌, none, some, Text, codes, length, Dict, lookup, Result, ok, err, ◌>>=◌,
  if◌then◌else◌,
}
use go2nix.BuildInfo.Info.{build_information}
use go2nix.Scripts.{link_script, collect_script}
use go2nix.NixDrv.Names.{link_drv_name, collect_drv_name}
use go2nix.NixDrv.Placeholder.{StorePath, render}
use go2nix.NixDrv.Derivation.{
  Derivation, new_derivation, add_arg, set_env, add_ca_output, add_input_drv, add_input_src,
}
use go2nix.Graph.Packages.{is_empty}
use go2nix.Resolver.Config.{
  Config, Tools, ResolveError, no_drv_path, no_main_packages, join, store_dir_of,
  extract_sanitizer_flags, absolute,
}
use go2nix.Resolver.Package.{
  Package, set_given, add_srcs, out_value, entry_at, stdlib_entry, placeholder_of, path_of,
}
use go2nix.Resolver.Closure.{transitive_closure}
use go2nix.Resolver.Parts.{
  main_packages, collect_stdlib_imports, bin_name, module_deps, env_of, build_settings, set_extld,
  link_path_parts, link_sources,
}

module _ (tools : Tools) where
  -- The line, or none where it cannot be made, which is a warning.
  unfoldable pub generate_modinfo : Config → List Package → Text → Text → List Text
  unfolding build_information module_deps build_settings
  generate_modinfo cfg sorted main_path default_godebug =
      elim (build_information tools.module_path tools.sum_lines main_path
        (env_of cfg (codes "GOVERSION")) (module_deps [] sorted)
        (build_settings cfg default_godebug)) [
          | err e ↦ []
          | ok info ↦ tools.modinfo_line info ∷ []
        ]

  abbrev pub stdlib_entries : Config → List Text → List Text
  stdlib_entries cfg [] = []
  stdlib_entries cfg (imp ∷ imports) = stdlib_entry tools cfg imp ∷ stdlib_entries cfg imports

  module _ (drv_paths : Dict StorePath) where
    -- The .drv path of a package, and the placeholder for its output.
    unfoldable pub package_output : Package → Result ResolveError (StorePath × List ℕ)
    unfolding placeholder_of
    package_output pkg = elim (lookup pkg.import_path drv_paths) [
      | none ↦ err (no_drv_path pkg.import_path)
      | some path ↦ placeholder_of tools pkg.import_path path >>= λ hash. ok (path, hash)
    ]

    -- The loop over the closure.
    unfoldable pub link_entries :
        List Package → Derivation → Result ResolveError (List Text × Derivation)
    unfolding package_output
    link_entries [] d = ok ([], d)
    link_entries (pkg ∷ pkgs) d = do
      (path, hash) ← package_output pkg
      (entries, with_inputs) ←
          link_entries pkgs (add_input_drv (absolute tools path) (codes "out" ∷ []) d)
      ok (entry_at tools pkg.import_path hash ∷ entries, with_inputs)

    unfoldable pub begin_link : Config → Text → Derivation
    unfolding link_drv_name link_script store_dir_of
    begin_link cfg name = add_ca_output (codes "out") (codes "sha256") (codes "nar") (
        add_arg (link_script cfg.go_bin name cfg.build_mode) (
          add_arg (codes "-c") (
            new_derivation (link_drv_name tools.sha256 name) cfg.system
              (store_dir_of cfg.bash_bin ++ codes "/bin/bash"))))

    -- The variables and sources behind the entries of the importcfg.
    unfoldable pub end_link :
        Config → Package → List Package → List Text → Text → Derivation → Derivation
    unfolding set_extld extract_sanitizer_flags set_given add_srcs out_value
    end_link cfg main_pkg closure entries goroot d =
        let with_entries = set_env (codes "ldflags") cfg.ld_flags (
          set_env (codes "passAsFile") (codes "importcfg_entries")
            (set_env (codes "importcfg_entries") (join entries (codes "\n")) d)) in
        let with_flags = set_given (codes "godebugDefault") main_pkg.default_godebug (
          set_given (codes "goroot") goroot (
            set_given (codes "sanitizerLinkFlags") (extract_sanitizer_flags cfg.gc_flags)
              with_entries)) in
        let with_extld =
          set_extld cfg closure (set_env (codes "out") (out_value tools) with_flags) in
        add_srcs (link_sources cfg)
          (set_env (codes "PATH") (join (link_path_parts cfg closure) (codes ":")) with_extld)

    unfoldable pub build_link_drv :
        Config
        → Dict Package
        → List Package
        → Package
        → ℕ
        → List Text
        → Text
        → Result ResolveError (StorePath × Derivation)
    unfolding begin_link end_link link_entries transitive_closure generate_modinfo path_of bin_name
        render
    build_link_drv cfg graph sorted main_pkg mains stdlib_imports goroot = do
      (main_path, hash) ← package_output main_pkg
      let closure = transitive_closure graph main_pkg
      let with_main = add_input_drv (absolute tools main_path) (codes "out" ∷ []) (
          set_env (codes "mainPkg") (render tools.sha256 tools.nixbase32 hash)
            (begin_link cfg (bin_name cfg main_pkg mains)))
      (entries, with_inputs) ← link_entries closure with_main
      let all_entries =
          entries
          ++ (stdlib_entries cfg stdlib_imports
              ++ generate_modinfo cfg sorted main_pkg.import_path main_pkg.default_godebug)
      let drv = end_link cfg main_pkg closure all_entries goroot with_inputs
      path ← path_of tools drv.name drv
      ok (path, drv)

    -- The loop over the main packages: their .drv paths, placeholders and derivations.
    unfoldable pub build_links :
        Config
        → Dict Package
        → List Package
        → ℕ
        → List Text
        → Text
        → List Package
        → Result ResolveError (List StorePath × List Text × List Derivation)
    unfolding build_link_drv placeholder_of render
    build_links cfg graph sorted mains stdlib_imports goroot [] = ok ([], [], [])
    build_links cfg graph sorted mains stdlib_imports goroot (main_pkg ∷ rest) = do
      (path, drv) ← build_link_drv cfg graph sorted main_pkg mains stdlib_imports goroot
      hash ← placeholder_of tools main_pkg.import_path path
      (paths, placeholders, drvs) ← build_links cfg graph sorted mains stdlib_imports goroot rest
      ok (path ∷ paths, render tools.sha256 tools.nixbase32 hash ∷ placeholders, drv ∷ drvs)

  abbrev pub add_outs : List StorePath → Derivation → Derivation
  add_outs [] d = d
  add_outs (p ∷ ps) d = add_outs ps (add_input_drv (absolute tools p) (codes "out" ∷ []) d)

  unfoldable pub collector : Config → List StorePath → List Text → Derivation
  unfolding collect_drv_name collect_script store_dir_of out_value
  collector cfg link_paths placeholders =
      let d = add_ca_output (codes "out") (codes "sha256") (codes "nar") (
        add_arg (collect_script placeholders) (
          add_arg (codes "-c") (
            new_derivation (collect_drv_name tools.sha256 cfg.pname) cfg.system
              (store_dir_of cfg.bash_bin ++ codes "/bin/bash")))) in
      add_outs link_paths (
        add_input_src cfg.coreutils_dir (
          add_input_src (store_dir_of cfg.bash_bin) (
            set_env (codes "PATH") (cfg.coreutils_dir ++ codes "/bin")
              (set_env (codes "out") (out_value tools) d))))

  unfoldable pub build_collector_drv :
      Config → List StorePath → List Text → Result ResolveError (StorePath × Derivation)
  unfolding collector path_of
  build_collector_drv cfg link_paths placeholders = do
    let drv = collector cfg link_paths placeholders
    path ← path_of tools drv.name drv
    ok (path, drv)

  abbrev pub collected :
      List Derivation
      → Result ResolveError (StorePath × Derivation)
      → Result ResolveError (StorePath × List Derivation)
  collected drvs built = built >>= λ (path, drv). ok (path, drvs ++ drv ∷ [])

  -- One link derivation is the result; several are collected.
  unfoldable pub finish_final :
      Config
      → List StorePath
      → List Text
      → List Derivation
      → Result ResolveError (StorePath × List Derivation)
  unfolding build_collector_drv
  finish_final cfg (path ∷ []) placeholders drvs = ok (path, drvs)
  finish_final cfg [] placeholders drvs = collected drvs (build_collector_drv cfg [] placeholders)
  finish_final cfg (p ∷ q ∷ paths) placeholders drvs =
      collected drvs (build_collector_drv cfg (p ∷ q ∷ paths) placeholders)

  unfoldable pub build_mains :
      Dict StorePath
      → Config
      → Dict Package
      → List Package
      → List Package
      → Result ResolveError (StorePath × List Derivation)
  unfolding collect_stdlib_imports build_links finish_final
  build_mains drv_paths cfg graph sorted mains = do
    stdlib_imports ← collect_stdlib_imports tools.stdlib_files
    (paths, placeholders, drvs) ←
        build_links drv_paths cfg graph sorted (length mains) stdlib_imports
          (env_of cfg (codes "GOROOT")) mains
    finish_final cfg paths placeholders drvs

  unfoldable pub build_final_drv :
      Dict StorePath
      → Config
      → Dict Package
      → List Package
      → Result ResolveError (StorePath × List Derivation)
  unfolding main_packages build_mains collect_stdlib_imports build_links finish_final
  build_final_drv drv_paths cfg graph sorted =
      if is_empty (main_packages sorted)
      then err no_main_packages
      else build_mains drv_paths cfg graph sorted (main_packages sorted)
