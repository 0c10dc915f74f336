-- ===== src/Graph/Packages.antt =====
-- go/go2nix/pkg/golist/golist.go: the packages that `go list` prints, and the imports of cgo.
-- `show` is `String` of module.Version.
use go2nix.Base.{
  List, [], ◌∷◌, ◌++◌, Bool, true, false, not, ◌&&◌, Option, none, some, Text, codes, text_eq, any,
  if◌then◌else◌,
}
use go2nix.Lock.Mods.{ModVersion}

-- `Module`; its Replace has a path and a version.
pub record Module : Type 0 where
  pub path : Text
  pub version : Text
  pub go_version : Text
  pub main : Bool
  pub replace : Option ModVersion

pub record PkgFiles : Type 0 where
  pub go_files : List Text
  pub cgo_files : List Text
  pub c_files : List Text
  pub cxx_files : List Text
  pub m_files : List Text
  pub f_files : List Text
  pub s_files : List Text
  pub h_files : List Text
  pub syso_files : List Text
  pub swig_files : List Text
  pub swig_cxx_files : List Text
  pub embed_patterns : List Text
  pub embed_files : List Text

pub record Pkg : Type 0 where
  pub import_path : Text
  pub name : Text
  pub dir : Text
  pub files : PkgFiles
  pub standard : Bool
  pub imports : List Text
  pub default_godebug : Text
  pub pkg_module : Option Module

-- The replacement of a module by another one, not by a directory.
abbrev pub versioned : Option ModVersion → Option ModVersion
versioned none = none
versioned (some r) = if text_eq r.version [] then none else some r

abbrev pub by_directory : Option ModVersion → Bool
by_directory none = false
by_directory (some r) = text_eq r.version []

unfoldable pub is_local : Option Module → Bool
is_local none = true
is_local (some m) = if m.main then true else if by_directory m.replace then true else false

unfoldable pub effective_version : Module → Text
effective_version m = elim (versioned m.replace) [ none ↦ m.version | some r ↦ r.version ]

unfoldable pub mod_key : (Text → Text → Text) → Module → Text
unfolding effective_version
mod_key show m = show m.path (effective_version m)

unfoldable pub fetch_path : Module → Text
fetch_path m = elim (versioned m.replace) [ none ↦ m.path | some r ↦ r.path ]

abbrev pub cgo_imports : List Text
cgo_imports = codes "unsafe" ∷ codes "runtime/cgo" ∷ codes "syscall" ∷ []

-- The loop over the imports of cgo; `seen` holds the imports that were there before.
abbrev pub add_unseen : List Text → List Text → List Text → List Text
add_unseen seen [] imports = imports
add_unseen seen (imp ∷ rest) imports =
    add_unseen seen rest (if any (text_eq imp) seen then imports else imports ++ imp ∷ [])

abbrev pub is_empty : {A : Type 0} → List A → Bool
is_empty [] = true
is_empty (_ ∷ _) = false

abbrev pub needs_cgo : PkgFiles → Bool
needs_cgo files =
    not (is_empty files.cgo_files && is_empty files.swig_files && is_empty files.swig_cxx_files)

unfoldable pub inject : Pkg → Pkg
inject pkg =
    if needs_cgo pkg.files
    then record pkg { imports = add_unseen pkg.imports cgo_imports pkg.imports }
    else pkg

unfoldable pub inject_cgo_imports : List Pkg → List Pkg
unfolding inject
inject_cgo_imports [] = []
inject_cgo_imports (pkg ∷ pkgs) = inject pkg ∷ inject_cgo_imports pkgs
