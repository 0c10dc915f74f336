-- ===== src/Compile/Tests.antt =====
-- The theorem on go/go2nix/pkg/compile/compile.go and its functions at concrete inputs.
use go2nix.Base.{List, [], ◌∷◌, ◌≡◌, refl, true, false, some, Text, codes, ok, err}
use go2nix.Compile.{
  InputFiles, Options, Outcomes, with_asm, invalid_name, objective_c, base, check_names,
  check_files, compile_go_package, with_defaults, output_flags, base_compile_args,
}
use go2nix.Compile.Accepted.{compile_go_package-Compilable}

abbrev files_of : List Text → List Text → List Text → InputFiles
files_of go_files s_files m_files = record {
  go_files = go_files;
  cgo_files = [];
  m_files = m_files;
  s_files = s_files;
  swig_files = [];
  swig_cxx_files = [];
  embed_cfg = true;
}

abbrev options : InputFiles → Options
options files = record {
  import_path = codes "a.org/m/sub";
  p_flag = [];
  src_dir = codes "/src/sub";
  output = codes "/out/m.a";
  iface_output = codes "/out/m.x";
  import_cfg = codes "/cfg";
  trim_path = [];
  module_path = codes "a.org/m";
  module_version = codes "v1.2.0";
  pgo_profile = [];
  files = some files;
}

abbrev all_done : Outcomes
all_done = record {
  goroot_found = true;
  preprofiled = false;
  directories_made = true;
  embed_cfg_written = true;
}

abbrev two_files : InputFiles
two_files = files_of (codes "sub/x.go" ∷ codes "y.go" ∷ []) (codes "z.s" ∷ []) []

compile_go_package-Compilable_example :
    compile_go_package all_done (options two_files) ≡ ok with_asm
unfolding check_files check_names base
compile_go_package-Compilable_example =
    (compile_go_package-Compilable all_done (options two_files) with_asm).1 (
      refl,
      refl,
      refl,
      (two_files, refl, (((refl, refl), ((refl, refl), tt)), refl, refl, refl), refl, refl),
    )

refused_flag :
    compile_go_package all_done (options (files_of (codes "sub/-x.go" ∷ []) [] []))
    ≡ err (invalid_name (codes "sub/-x.go"))
unfolding compile_go_package
refused_flag = refl

refused_cgo :
    check_files (files_of (codes "_cgo_gotypes.go" ∷ []) [] [])
    ≡ err (invalid_name (codes "_cgo_gotypes.go"))
unfolding check_files
refused_cgo = refl

refused_objective_c :
    check_files (files_of (codes "x.go" ∷ []) [] (codes "x.m" ∷ [])) ≡ err objective_c
unfolding check_files
refused_objective_c = refl

args_of_compile :
    base_compile_args (with_defaults (codes "/build") (options two_files)) 1
    ≡ codes "tool"
      ∷ codes "compile"
      ∷ codes "-importcfg"
      ∷ codes "/cfg"
      ∷ codes "-p"
      ∷ codes "a.org/m/sub"
      ∷ codes "-buildid"
      ∷ []
      ∷ codes "-trimpath=/src/sub=>a.org/m@v1.2.0/sub;/build=>"
      ∷ codes "-nolocalimports"
      ∷ codes "-pack"
      ∷ codes "-c=1"
      ∷ []
unfolding base_compile_args with_defaults
args_of_compile = refl

flags_of_output :
    output_flags (options two_files)
    ≡ codes "-o" ∷ codes "/out/m.x" ∷ codes "-linkobj" ∷ codes "/out/m.a" ∷ []
unfolding output_flags
flags_of_output = refl
