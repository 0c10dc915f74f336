-- ===== src/Resolver/Package.antt =====
-- buildPackageDrv of go/go2nix/pkg/resolve/resolve.go: the derivation of a package. The fields of a
-- package that the resolver sets, SrcStorePath and DrvPath, are maps from import paths: a graph
-- holds one package for an import path, and the sorted list the same packages.
use go2nix.Base.{
  ℕ, List, [], ◌∷◌, ◌++◌, Bool, not, ◌&&◌, Option, none, some, Text, codes, text_eq, cut, Dict,
  lookup, Result, ok, err, ◌>>=◌, if◌then◌else◌,
}
use go2nix.Toolchain.Version.{lang_version}
use go2nix.Manifest.{ManifestFiles, CompileManifest, manifest_version, kind_compile}
use go2nix.Scripts.{importcfg_placeholder}
use go2nix.Graph.{ResolvedFiles, ResolvedPkg}
use go2nix.NixDrv.Names.{pkg_drv_name}
use go2nix.NixDrv.Placeholder.{StorePath, ca_output, standard_output, render}
use go2nix.NixDrv.Derivation.{
  Derivation, new_derivation, add_arg, set_env, add_ca_output, add_input_drv, add_input_src,
}
use go2nix.NixDrv.Aterm.{drv_path}
use go2nix.Graph.Packages.{is_empty}
use go2nix.Resolver.Config.{
  Config, Tools, ResolveError, no_staged_source, nil_path, no_drv_path, no_placeholder,
  drv_path_failed, not_marshaled, map_err, join, store_dir_of, build_compile_gc_flags, absolute,
}
use go2nix.Resolver.Inputs.{InputPaths, discover_input_paths}

abbrev pub Package : Type 0
Package = ResolvedPkg StorePath

abbrev pub Overrides : Type 0
Overrides = Dict (List Text)

-- A variable that is set only to what is not empty.
unfoldable pub set_given : Text → Text → Derivation → Derivation
set_given key value d = if text_eq value [] then d else set_env key value d

abbrev pub or_none : Option (List Text) → List Text
or_none none = []
or_none (some l) = l

-- The version behind the `@` of a module key.
abbrev pub version_of : Option (Text × Text) → Text
version_of none = []
version_of (some (_, version)) = version

unfoldable pub add_srcs : List Text → Derivation → Derivation
add_srcs [] d = d
add_srcs (p ∷ ps) d = add_srcs ps (add_input_src p d)

unfoldable pub override_paths : Overrides → Package → List Text
override_paths overrides pkg =
    or_none (lookup pkg.import_path overrides)
    ++ (if text_eq pkg.mod_path [] then [] else or_none (lookup pkg.mod_path overrides))

abbrev pub wants_cc : Config → Package → Bool
wants_cc cfg pkg = not (is_empty pkg.files.cgo_files) && not (text_eq cfg.cc_dir [])

unfoldable pub add_cc : Config → Package → Derivation → Derivation
add_cc cfg pkg d = if wants_cc cfg pkg then add_input_src cfg.cc_dir d else d

unfoldable pub set_joined : Text → List Text → Text → Derivation → Derivation
set_joined key dirs value d = if is_empty dirs then d else set_env key value d

-- The directories of PATH.
unfoldable pub path_parts : Config → Package → InputPaths → List Text
unfolding store_dir_of
path_parts cfg pkg inputs =
    ((store_dir_of cfg.go_bin ++ codes "/bin")
      ∷ (store_dir_of cfg.go2nix_bin ++ codes "/bin")
      ∷ (cfg.coreutils_dir ++ codes "/bin")
      ∷ [])
    ++ (inputs.bin_dirs ++ (if wants_cc cfg pkg then (cfg.cc_dir ++ codes "/bin") ∷ [] else []))

-- The sources that every compilation has.
unfoldable pub common_sources : Config → List Text
unfolding store_dir_of
common_sources cfg =
    store_dir_of cfg.bash_bin
    ∷ cfg.coreutils_dir
    ∷ store_dir_of cfg.go2nix_bin
    ∷ store_dir_of cfg.go_bin
    ∷ cfg.stdlib_path
    ∷ []

abbrev pub given_pgo : Text → Option Text
given_pgo path = if text_eq path [] then none else some path

abbrev pub manifest_files : ResolvedFiles → ManifestFiles
manifest_files files = record {
  go_files = files.go_files;
  cgo_files = files.cgo_files;
  s_files = files.s_files;
  c_files = files.c_files;
  cxx_files = files.cxx_files;
  m_files = [];
  f_files = files.f_files;
  h_files = files.h_files;
  syso_files = files.syso_files;
  swig_files = [];
  swig_cxx_files = [];
  embed_patterns = files.embed_patterns;
}

unfoldable pub compile_manifest : Config → Package → CompileManifest
unfolding build_compile_gc_flags
compile_manifest cfg pkg = record {
  version = manifest_version;
  kind = kind_compile;
  importcfg_parts = importcfg_placeholder ∷ [];
  tags = [];
  gc_flags = build_compile_gc_flags cfg.build_mode cfg.gc_flags;
  pgo_profile = given_pgo cfg.pgo_profile;
  files = some (manifest_files pkg.files);
}

unfoldable pub add_pgo : Text → Derivation → Derivation
unfolding store_dir_of
add_pgo path d = if text_eq path [] then d else add_input_src (store_dir_of path) d

unfoldable pub set_version : Text → Derivation → Derivation
unfolding lang_version
set_version version d =
    if text_eq version [] then d else set_env (codes "goVersion") (lang_version version) d

-- The placeholder for a derivation's own output.
unfoldable pub out_value : Tools → Text
unfolding render standard_output
out_value tools =
    render tools.sha256 tools.nixbase32 (standard_output tools.sha256 tools.nixbase32 (codes "out"))

module _ (tools : Tools) where
  unfoldable pub setup_pkg_overrides :
      Config → Package → Overrides → Derivation → Derivation × InputPaths
  unfolding override_paths discover_input_paths path_parts set_joined add_cc
  setup_pkg_overrides cfg pkg overrides d =
      let inputs =
        discover_input_paths tools.is_dir tools.propagated_inputs tools.walk_depth
          (override_paths overrides pkg) in
      let with_path =
        set_env (codes "PATH") (join (path_parts cfg pkg inputs) (codes ":")) (add_cc cfg pkg d) in
      let with_pkg_config =
        set_joined (codes "PKG_CONFIG_PATH") inputs.pkg_config_dirs
          (join inputs.pkg_config_dirs (codes ":")) with_path in
      (
        set_joined (codes "CGO_CFLAGS") inputs.include_dirs
            (codes "-I" ++ join inputs.include_dirs (codes " -I")) with_pkg_config,
        inputs,
      )

  -- modSrc and relDir, and the source that they name.
  abbrev pub set_source : StorePath → Text → Derivation → Derivation
  set_source source rel_dir d =
      add_input_src (absolute tools source)
        (set_env (codes "relDir") rel_dir (set_env (codes "modSrc") (absolute tools source) d))

  unfoldable pub setup_pkg_source :
      Dict StorePath → Package → Derivation → Result ResolveError Derivation
  setup_pkg_source staged pkg d =
      if pkg.local
      then elim (lookup pkg.import_path staged) [
        | none ↦ err (no_staged_source pkg.import_path)
        | some source ↦ ok (set_source source (codes ".") d)
      ]
      else elim pkg.fod_path [
        | none ↦ err (nil_path pkg.import_path)
        | some source ↦
            ok (set_source source (if text_eq pkg.subdir [] then codes "." else pkg.subdir) d)
      ]

  -- The text `packagefile import=dir/pkg.a` for the output of a derivation.
  abbrev pub entry_at : Text → List ℕ → Text
  unfolding render
  entry_at imp hash =
      codes "packagefile "
      ++ (imp ++ (codes "=" ++ (render tools.sha256 tools.nixbase32 hash ++ codes "/pkg.a")))

  abbrev pub stdlib_entry : Config → Text → Text
  stdlib_entry cfg imp =
      codes "packagefile "
      ++ (imp ++ (codes "=" ++ (cfg.stdlib_path ++ (codes "/" ++ (imp ++ codes ".a")))))

  unfoldable pub placeholder_of : Text → StorePath → Result ResolveError (List ℕ)
  unfolding ca_output
  placeholder_of imp path =
      map_err (no_placeholder imp) (ca_output tools.sha256 tools.nixbase32 path (codes "out"))

  module _ (graph : Dict Package) (drv_paths : Dict StorePath) where
    -- The entry for an import, and the derivation with the input that it needs.
    unfoldable pub import_entry :
        Config → Text → Derivation → Result ResolveError (Text × Derivation)
    unfolding placeholder_of
    import_entry cfg imp d = elim (lookup imp graph) [
      | none ↦ ok (stdlib_entry cfg imp, d)
      | some dep ↦ elim (lookup dep.import_path drv_paths) [
        | none ↦ err (no_drv_path imp)
        | some path ↦ do
          hash ← placeholder_of imp path
          ok (entry_at imp hash, add_input_drv (absolute tools path) (codes "out" ∷ []) d)
      ]
    ]

    unfoldable pub import_entries :
        Config → List Text → Derivation → Result ResolveError (List Text × Derivation)
    unfolding import_entry
    import_entries cfg [] d = ok ([], d)
    import_entries cfg (imp ∷ imports) d = do
      (entry, with_input) ← import_entry cfg imp d
      (entries, with_inputs) ← import_entries cfg imports with_input
      ok (entry ∷ entries, with_inputs)

    unfoldable pub build_importcfg : Config → Package → Derivation → Result ResolveError Derivation
    unfolding import_entries
    build_importcfg cfg pkg d = do
      (entries, with_inputs) ← import_entries cfg pkg.imports d
      ok (set_env (codes "importcfg_entries") (join entries (codes "\n")) with_inputs)

  -- The derivation up to its output.
  unfoldable pub begin_package : Config → Package → Text → Derivation
  unfolding store_dir_of pkg_drv_name
  begin_package cfg pkg script =
      let d =
        new_derivation
          (pkg_drv_name tools.sha256 pkg.import_path (version_of (cut pkg.mod_key b'@'))) cfg.system
          (store_dir_of cfg.bash_bin ++ codes "/bin/bash") in
      let with_args = add_arg script (add_arg (codes "-c") d) in
      let named =
        set_env (codes "importPath") pkg.import_path
          (add_ca_output (codes "out") (codes "sha256") (codes "nar") with_args) in
      if text_eq pkg.name (codes "main")
      then set_env (codes "pflag") (codes "main") named
      else named

  -- The variables and sources behind the manifest.
  unfoldable pub end_package : Config → Package → Text → InputPaths → Derivation → Derivation
  unfolding common_sources set_version out_value add_srcs set_given
  end_package cfg pkg manifest inputs d =
      let with_manifest =
        set_env (codes "passAsFile") (codes "importcfg_entries")
          (set_env (codes "compileManifestJSON") manifest d) in
      let with_version = set_version pkg.go_version with_manifest in
      let with_cgo = set_given (codes "CGO_ENABLED") cfg.cgo_enabled with_version in
      let with_out = set_env (codes "out") (out_value tools) with_cgo in
      add_srcs inputs.all (add_srcs (common_sources cfg) with_out)

  -- DrvPath, with the name that the error gives.
  unfoldable pub path_of : Text → Derivation → Result ResolveError StorePath
  unfolding drv_path
  path_of name d =
      map_err (drv_path_failed name)
        (drv_path tools.calculate_output_paths tools.parse_any tools.go_drv_path d)

  unfoldable pub marshaled : Text → CompileManifest → Result ResolveError Text
  marshaled name m = elim (tools.marshal_manifest m) [
    | none ↦ err (not_marshaled name)
    | some text ↦ ok text
  ]

  unfoldable pub build_package_drv :
      Config
      → Dict Package
      → Dict StorePath
      → Dict StorePath
      → Overrides
      → Text
      → Package
      → Result ResolveError (Derivation × StorePath)
  unfolding begin_package setup_pkg_overrides setup_pkg_source build_importcfg compile_manifest
      end_package path_of add_pgo marshaled
  build_package_drv cfg graph drv_paths staged overrides script pkg = do
    let (d, inputs) = setup_pkg_overrides cfg pkg overrides (begin_package cfg pkg script)
    sourced ← setup_pkg_source staged pkg d
    linked ← build_importcfg graph drv_paths cfg pkg sourced
    manifest ← marshaled pkg.import_path (compile_manifest cfg pkg)
    let drv = end_package cfg pkg manifest inputs (add_pgo cfg.pgo_profile linked)
    path ← path_of pkg.import_path drv
    ok (drv, path)
