-- ===== src/Manifest/Tests.antt =====
-- The manifests at a package with cgo, and the refusals of the loaders.
use go2nix.Base.{ℕ, List, [], ◌∷◌, ◌≡◌, ◌≢◌, refl, none, some, Text, codes, Result, ok, err}
use go2nix.Graph.Packages.{effective_version}
use go2nix.Resolver.Package.{manifest_files, compile_manifest}
use go2nix.Compile.{objective_c, swig, check_files}
use go2nix.Manifest.{
  LinkManifest, manifest_version, kind_link, kind_test, not_read, unsupported_version, wrong_kind,
  load_link_manifest, load_test_manifest, CompileManifest, EmbedCfg, PkgFiles, without_embeds,
  to_pkg_files, input_files, load_compile_manifest,
}
use go2nix.Resolver.Unsupported.{SameFiles, load-compile_manifest}
use go2nix.Resolver.Tests.{config, a_resolved}

-- The package with cgo, its manifest as the file that compile-package reads.
abbrev a_manifest : CompileManifest
unfolding effective_version
a_manifest = record (compile_manifest config a_resolved) {
  importcfg_parts = codes "/build/importcfg" ∷ [];
}

abbrev a_files : PkgFiles
unfolding effective_version
a_files = without_embeds (manifest_files a_resolved.files)

no_embeds : List Text → Result ℕ EmbedCfg
no_embeds patterns = err 1

a_files_read : to_pkg_files no_embeds (manifest_files a_resolved.files) ≡ ok a_files
unfolding to_pkg_files effective_version
a_files_read = refl

load-compile_manifest_example :
    (load_compile_manifest (λ _. some a_manifest) (some (codes "{}")) ≡ ok a_manifest)
    × ((compile_manifest config a_resolved).files ≡ some (manifest_files a_resolved.files))
    × SameFiles a_resolved.files a_files
    × (check_files (input_files a_files) ≢ err objective_c)
    × (check_files (input_files a_files) ≢ err swig)
unfolding a_manifest
load-compile_manifest_example =
    load-compile_manifest (λ _. some a_manifest) no_embeds config a_resolved
      (codes "/build/importcfg" ∷ []) (codes "{}") a_files refl a_files_read

abbrev a_link : LinkManifest
a_link = record {
  version = manifest_version;
  kind = kind_link;
  importcfg_parts = [];
  local_archives = [];
  compile_importcfg_parts = [];
  local_ifaces = [];
  sub_packages = [];
  module_root = codes "/src";
  lockfile = none;
  pname = codes "tool";
  goos = none;
  goarch = none;
  ld_flags = [];
  gc_flags = [];
  tags = [];
  pgo_profile = none;
}

-- A manifest of another version or kind is refused, a file that is not there is reported first.
old_version :
    load_compile_manifest (λ _. some (record a_manifest { version = 1 })) (some (codes "{}"))
    ≡ err (unsupported_version 1)
unfolding load_compile_manifest
old_version = refl

other_kind :
    load_link_manifest (λ _. some (record a_link { kind = kind_test })) (some (codes "{}"))
    ≡ err (wrong_kind kind_test)
unfolding load_link_manifest
other_kind = refl

no_file : load_test_manifest (λ _. none) none ≡ err not_read
unfolding load_test_manifest
no_file = refl
