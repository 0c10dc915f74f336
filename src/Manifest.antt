-- ===== src/Manifest.antt =====
-- go/go2nix/pkg/compile/manifest.go: the manifests that Nix writes, and the files of
-- go/go2nix/pkg/gofiles/gofiles.go that they give. What reading a file and decoding JSON answer is
-- an argument.
mod Tests
use go2nix.Base.{
  ℕ, List, [], ◌∷◌, Bool, true, false, Option, none, some, Text, codes, text_eq, sort, Dict, keys,
  ◌==◌, Result, ok, err, ◌>>=◌, if◌then◌else◌,
}
use go2nix.Compile.{InputFiles}

abbrev pub manifest_version : ℕ
manifest_version = 2

abbrev pub kind_compile : Text
kind_compile = codes "compile"

abbrev pub kind_link : Text
kind_link = codes "link"

abbrev pub kind_test : Text
kind_test = codes "test"

pub record ManifestFiles : Type 0 where
  pub go_files : List Text
  pub cgo_files : List Text
  pub s_files : List Text
  pub c_files : List Text
  pub cxx_files : List Text
  pub m_files : List Text
  pub f_files : List Text
  pub h_files : List Text
  pub syso_files : List Text
  pub swig_files : List Text
  pub swig_cxx_files : List Text
  pub embed_patterns : List Text

pub record CompileManifest : Type 0 where
  pub version : ℕ
  pub kind : Text
  pub importcfg_parts : List Text
  pub tags : List Text
  pub gc_flags : List Text
  pub pgo_profile : Option Text
  pub files : Option ManifestFiles

pub record ManifestModule : Type 0 where
  pub path : Text
  pub version : Text
  pub replace_path : Text
  pub replace_version : Text

pub record LinkSubPackage : Type 0 where
  pub path : Text
  pub files : Option ManifestFiles
  pub modules : List ManifestModule
  pub cxx : Bool

pub record LinkManifest : Type 0 where
  pub version : ℕ
  pub kind : Text
  pub importcfg_parts : List Text
  pub local_archives : Dict Text
  pub compile_importcfg_parts : List Text
  pub local_ifaces : Dict Text
  pub sub_packages : List LinkSubPackage
  pub module_root : Text
  pub lockfile : Option Text
  pub pname : Text
  pub goos : Option Text
  pub goarch : Option Text
  pub ld_flags : List Text
  pub gc_flags : List Text
  pub tags : List Text
  pub pgo_profile : Option Text

pub record TestManifest : Type 0 where
  pub version : ℕ
  pub kind : Text
  pub importcfg_parts : List Text
  pub local_archives : Dict Text
  pub compile_importcfg_parts : List Text
  pub local_ifaces : Dict Text
  pub src_overlays : Dict Text
  pub module_root : Text
  pub tags : List Text
  pub gc_flags : List Text
  pub check_flags : List Text
  pub cxx : Bool

pub data LoadError : Type 0 where
  not_read not_parsed : LoadError
  unsupported_version : (version : ℕ) → LoadError
  wrong_kind : (kind : Text) → LoadError

-- The reading of a file and of its JSON.
abbrev pub decoded : {M : Type 0} → (Text → Option M) → Option Text → Result LoadError M
decoded unmarshal none = err not_read
decoded unmarshal (some text) = elim (unmarshal text) [ none ↦ err not_parsed | some m ↦ ok m ]

-- The tests of a version and of a kind.
abbrev pub accept : {M : Type 0} → (expected : Text) → ℕ → Text → M → Result LoadError M
accept expected version kind m =
    if version == manifest_version
    then (if text_eq kind expected then ok m else err (wrong_kind kind))
    else err (unsupported_version version)

unfoldable pub load_compile_manifest :
    (Text → Option CompileManifest) → Option Text → Result LoadError CompileManifest
load_compile_manifest unmarshal file = do
  m ← decoded unmarshal file
  accept kind_compile m.version m.kind m

unfoldable pub load_link_manifest :
    (Text → Option LinkManifest) → Option Text → Result LoadError LinkManifest
load_link_manifest unmarshal file = do
  m ← decoded unmarshal file
  accept kind_link m.version m.kind m

unfoldable pub load_test_manifest :
    (Text → Option TestManifest) → Option Text → Result LoadError TestManifest
load_test_manifest unmarshal file = do
  m ← decoded unmarshal file
  accept kind_test m.version m.kind m

-- gofiles.EmbedCfg and gofiles.PkgFiles.
pub record EmbedCfg : Type 0 where
  pub patterns : Dict (List Text)
  pub files : Dict Text

pub record PkgFiles : Type 0 where
  pub go_files : List Text
  pub cgo_files : List Text
  pub s_files : List Text
  pub c_files : List Text
  pub cxx_files : List Text
  pub m_files : List Text
  pub f_files : List Text
  pub h_files : List Text
  pub syso_files : List Text
  pub swig_files : List Text
  pub swig_cxx_files : List Text
  pub embed_files : List Text
  pub embed_cfg : Option EmbedCfg

abbrev pub without_embeds : ManifestFiles → PkgFiles
without_embeds mf = record {
  go_files = mf.go_files;
  cgo_files = mf.cgo_files;
  s_files = mf.s_files;
  c_files = mf.c_files;
  cxx_files = mf.cxx_files;
  m_files = mf.m_files;
  f_files = mf.f_files;
  h_files = mf.h_files;
  syso_files = mf.syso_files;
  swig_files = mf.swig_files;
  swig_cxx_files = mf.swig_cxx_files;
  embed_files = [];
  embed_cfg = none;
}

abbrev pub with_embeds : PkgFiles → EmbedCfg → PkgFiles
with_embeds pf cfg = record pf { embed_cfg = some cfg; embed_files = sort (keys cfg.files) }

-- `resolve` is ResolveEmbedCfg at the source directory.
abbrev pub embeds_of :
    {E : Type 0} → (List Text → Result E EmbedCfg) → PkgFiles → List Text → Result E PkgFiles
embeds_of resolve pf [] = ok pf
embeds_of resolve pf (p ∷ ps) = resolve (p ∷ ps) >>= λ cfg. ok (with_embeds pf cfg)

unfoldable pub to_pkg_files :
    {E : Type 0} → (List Text → Result E EmbedCfg) → ManifestFiles → Result E PkgFiles
unfolding sort
to_pkg_files resolve mf = embeds_of resolve (without_embeds mf) mf.embed_patterns

abbrev pub is_some : {A : Type 0} → Option A → Bool
is_some none = false
is_some (some _) = true

-- What CompileGoPackage looks at.
abbrev pub input_files : PkgFiles → InputFiles
input_files pf = record {
  go_files = pf.go_files;
  cgo_files = pf.cgo_files;
  m_files = pf.m_files;
  s_files = pf.s_files;
  swig_files = pf.swig_files;
  swig_cxx_files = pf.swig_cxx_files;
  embed_cfg = is_some pf.embed_cfg;
}
