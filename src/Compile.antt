-- ===== src/Compile.antt =====
-- go/go2nix/pkg/compile/compile.go: the checks before a package is compiled, the way that is
-- chosen, and the flags for the compiler. What commands and the file system answer is an argument.
pub mod Accepted
mod Tests
use go2nix.Base.{
  List, [], ◌∷◌, ◌++◌, Bool, true, false, not, ◌||◌, ◌&&◌, Option, none, some, Text, codes, text_eq,
  has_prefix, trim_prefix, split, any, ◌==◌, ℕ, Result, ok, err, ◌>>=◌, if◌then◌else◌,
}
use go2nix.CgoFlags.Check.{safe_arg}

-- gofiles.PkgFiles, of what the function looks at; `embed_cfg` tells whether there is one.
pub record InputFiles : Type 0 where
  pub go_files : List Text
  pub cgo_files : List Text
  pub m_files : List Text
  pub s_files : List Text
  pub swig_files : List Text
  pub swig_cxx_files : List Text
  pub embed_cfg : Bool

pub record Options : Type 0 where
  pub import_path : Text
  pub p_flag : Text
  pub src_dir : Text
  pub output : Text
  pub iface_output : Text
  pub import_cfg : Text
  pub trim_path : Text
  pub module_path : Text
  pub module_version : Text
  pub pgo_profile : Text
  pub files : Option InputFiles

-- Whether the GOROOT was found, the profile preprocessed, the directories made and the embedcfg
-- written.
pub record Outcomes : Type 0 where
  pub goroot_found : Bool
  pub preprofiled : Bool
  pub directories_made : Bool
  pub embed_cfg_written : Bool

pub data CompileError : Type 0 where
  no_goroot preprofile_failed no_files_given no_go_files objective_c swig no_directory
        no_embed_cfg :
      CompileError
  invalid_name : (file : Text) → CompileError

-- compileCgo, compileWithAsm and compileGo.
pub data Way : Type 0 where
  cgo with_asm plain_go : Way

unfoldable pub rewrite_dir : Options → Text
rewrite_dir o =
    if not (text_eq o.module_version []) && not (text_eq o.module_path [])
    then o.module_path
      ++ (codes "@" ++ (o.module_version ++ trim_prefix o.import_path o.module_path))
    else o.import_path

unfoldable pub trim_rewrite : Options → Text
unfolding rewrite_dir
trim_rewrite o =
    o.src_dir ++ (codes "=>" ++ (rewrite_dir o ++ (codes ";" ++ (o.trim_path ++ codes "=>"))))

-- `filepath.Base`
abbrev pub cons_kept : ℕ → Text → Text
cons_kept c [] = if c == b'/' then [] else c ∷ []
cons_kept c (d ∷ s) = c ∷ d ∷ s

abbrev pub without_slashes : Text → Text
without_slashes [] = []
without_slashes (c ∷ s) = cons_kept c (without_slashes s)

abbrev pub last_of : List Text → Text
last_of [] = []
last_of (s ∷ []) = s
last_of (s ∷ t ∷ rest) = last_of (t ∷ rest)

abbrev pub last_element : Text → Text
last_element [] = codes "/"
last_element (c ∷ s) = last_of (split (c ∷ s) b'/')

unfoldable pub base : Text → Text
base [] = codes "."
base (c ∷ s) = last_element (without_slashes (c ∷ s))

abbrev pub is_input_name : Text → Bool
unfolding safe_arg base
is_input_name f = safe_arg (base f) && not (has_prefix (base f) (codes "_cgo_"))

-- The loop of checkInputFileNames.
unfoldable pub check_names : List Text → Result CompileError (Unit {0})
unfolding safe_arg base
check_names [] = ok tt
check_names (f ∷ rest) =
    let later = check_names rest in if is_input_name f then later else err (invalid_name f)

abbrev pub guard : Bool → CompileError → Result CompileError (Unit {0})
guard true e = ok tt
guard false e = err e

abbrev pub given : Option InputFiles → Result CompileError InputFiles
given none = err no_files_given
given (some files) = ok files

abbrev pub has_any : List Text → Bool
has_any [] = false
has_any (_ ∷ _) = true

abbrev pub choose_way : InputFiles → Way
choose_way files =
    if has_any files.cgo_files then cgo else if has_any files.s_files then with_asm else plain_go

-- The checks of the files, in their order.
unfoldable pub check_files : InputFiles → Result CompileError (Unit {0})
unfolding check_names
check_files files = do
  _ ← check_names (files.go_files ++ files.cgo_files)
  _ ← guard (has_any files.go_files || has_any files.cgo_files) no_go_files
  _ ← guard (not (has_any files.m_files)) objective_c
  guard (not (has_any files.swig_files || has_any files.swig_cxx_files)) swig

-- The flag and the path that the caller leaves out; `build_top` is $NIX_BUILD_TOP.
unfoldable pub with_defaults : Text → Options → Options
with_defaults build_top o = record o {
  p_flag = if text_eq o.p_flag [] then o.import_path else o.p_flag;
  trim_path = if text_eq o.trim_path [] then build_top else o.trim_path;
}

-- CompileGoPackage, up to the compiling.
unfoldable pub compile_go_package : Outcomes → Options → Result CompileError Way
unfolding check_files
compile_go_package done opts = do
  _ ← guard done.goroot_found no_goroot
  _ ← guard (text_eq opts.pgo_profile [] || done.preprofiled) preprofile_failed
  files ← given opts.files
  _ ← check_files files
  _ ← guard done.directories_made no_directory
  _ ← guard (not files.embed_cfg || done.embed_cfg_written) no_embed_cfg
  ok (choose_way files)

unfoldable pub output_flags : Options → List Text
output_flags o =
    if text_eq o.iface_output []
    then codes "-o" ∷ o.output ∷ []
    else codes "-o" ∷ o.iface_output ∷ codes "-linkobj" ∷ o.output ∷ []

unfoldable pub base_compile_args : Options → ℕ → List Text
unfolding trim_rewrite
base_compile_args o concurrency =
    codes "tool"
    ∷ codes "compile"
    ∷ codes "-importcfg"
    ∷ o.import_cfg
    ∷ codes "-p"
    ∷ o.p_flag
    ∷ codes "-buildid"
    ∷ []
    ∷ (codes "-trimpath=" ++ trim_rewrite o)
    ∷ codes "-nolocalimports"
    ∷ codes "-pack"
    ∷ (if concurrency == 1 then codes "-c=1" ∷ [] else [])
