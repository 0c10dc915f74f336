-- ===== src/TestRunner/Step.antt =====
-- go/go2nix/pkg/testrunner/testrunner.go: what a test run is given, the importcfgs and calls of the
-- compiler that are its state, and the names of its archives.
use go2nix.Base.{
  ℕ, List, [], ◌++◌, ◌||◌, Option, none, some, Text, codes, map, ◌==◌, Dict, if◌then◌else◌,
}
use go2nix.Toposort.{SortError}
use go2nix.Manifest.{EmbedCfg, PkgFiles}
use go2nix.LocalPackages.{LocalPkg}
use go2nix.Embeds.{MergeError}
use go2nix.TestRunner.Override.{override_entry}

pub record Options : Type 0 where
  pub trim_path : Text
  pub tags : List Text
  pub gc_flags : List Text
  pub import_cfg : Text
  pub compile_import_cfg : Option Text
  pub local_archives : Option (Dict Text)

-- A call of CompileGoPackage, with the content of the importcfg that it reads.
pub record Call : Type 0 where
  pub import_path : Text
  pub p_flag : Text
  pub src_dir : Text
  pub output : Text
  pub import_cfg : Text
  pub go_version : Text
  pub files : PkgFiles

-- The two importcfgs, the second of which may be the first, and the calls up to here.
pub record Progress : Type 0 where
  pub link_cfg : Text
  pub compile_cfg : Option Text
  pub calls : List Call

pub data TestError : Type 0 where
  embeds_not_merged : MergeError → TestError
  not_sorted : SortError → TestError
  not_compiled : (import_path : Text) → TestError
  no_test_main not_prepared not_linked tests_failed : TestError

-- The files of a compilation from Go files only.
abbrev pub go_files_only : List Text → Option EmbedCfg → PkgFiles
go_files_only files cfg = record {
  go_files = files;
  cgo_files = [];
  s_files = [];
  c_files = [];
  cxx_files = [];
  m_files = [];
  f_files = [];
  h_files = [];
  syso_files = [];
  swig_files = [];
  swig_cxx_files = [];
  embed_files = [];
  embed_cfg = cfg;
}

unfoldable pub internal_test_pkg_files : LocalPkg → Option EmbedCfg → PkgFiles
internal_test_pkg_files pkg embed_cfg =
    record (go_files_only (pkg.files.go_files ++ pkg.test_go_files) embed_cfg) {
      cgo_files = pkg.files.cgo_files;
      s_files = pkg.files.s_files;
      c_files = pkg.files.c_files;
      cxx_files = pkg.files.cxx_files;
      h_files = pkg.files.h_files;
      f_files = pkg.files.f_files;
      syso_files = pkg.files.syso_files;
    }

abbrev pub sanitize_char : ℕ → ℕ
sanitize_char c = if (c == b'/') || (c == b'.') then b'_' else c

abbrev pub sanitize : Text → Text
sanitize s = map sanitize_char s

abbrev pub test_dir : Options → Text → Text
test_dir opts import_path = opts.trim_path ++ (codes "/test-" ++ sanitize import_path)

abbrev pub recompiled_archive : Options → Text → Text → Text
recompiled_archive opts target dep =
    test_dir opts target ++ (codes "/recomp-" ++ (sanitize dep ++ codes ".a"))

abbrev pub internal_archive : Options → Text → Text
internal_archive opts target = test_dir opts target ++ codes "/internal.a"

abbrev pub compile_content : Progress → Text
compile_content pr = elim pr.compile_cfg [ none ↦ pr.link_cfg | some content ↦ content ]

abbrev pub map_given : (Text → Text) → Option Text → Option Text
map_given f none = none
map_given f (some t) = some (f t)

unfoldable pub override_both : Text → Text → Progress → Progress
unfolding override_entry
override_both import_path archive pr = record pr {
  link_cfg = override_entry import_path archive pr.link_cfg;
  compile_cfg = map_given (override_entry import_path archive) pr.compile_cfg;
}
