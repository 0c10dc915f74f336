-- ===== src/LocalPackages.antt =====
-- LocalPkg of go/go2nix/pkg/localpkgs/localpkgs.go, a package of a module with its files.
use go2nix.Base.{List, Option, Text}
use go2nix.Manifest.{EmbedCfg, PkgFiles}

pub record LocalPkg : Type 0 where
  pub import_path : Text
  pub src_dir : Text
  pub local_deps : List Text
  pub test_go_files : List Text
  pub xtest_go_files : List Text
  pub test_imports : List Text
  pub xtest_imports : List Text
  pub embed_patterns : List Text
  pub test_embed_patterns : List Text
  pub xtest_embed_patterns : List Text
  pub test_embed_files : List Text
  pub xtest_embed_files : List Text
  pub test_embed_cfg : Option EmbedCfg
  pub xtest_embed_cfg : Option EmbedCfg
  pub files : PkgFiles
