-- ===== src/Compile/Accepted.antt =====
-- The packages that are compiled.
use go2nix.Base.{
  List, [], ◌∷◌, ◌++◌, ◌≡◌, refl, inl, inr, ◌↔◌, Bool, true, false, not, ◌||◌, Bool-cases, Option,
  none, some, Text, codes, text_eq, has_prefix, ok, ok_of_bind, ok_cancel, All, and-eq-true,
}
use go2nix.CgoFlags.Check.{safe_arg}
use go2nix.Compile.{
  InputFiles, Options, Outcomes, CompileError, Way, base, is_input_name, check_names, guard, given,
  has_any, choose_way, check_files, compile_go_package,
}

-- A name that is no flag, no file of arguments and none of cgo's own.
abbrev pub InputName : Text → Type 0
InputName f = (safe_arg (base f) ≡ true) × (has_prefix (base f) (codes "_cgo_") ≡ false)

abbrev pub Accepted : InputFiles → Type 0
Accepted files =
    All InputName (files.go_files ++ files.cgo_files)
    × ((has_any files.go_files || has_any files.cgo_files) ≡ true)
    × (has_any files.m_files ≡ false)
    × ((has_any files.swig_files || has_any files.swig_cxx_files) ≡ false)

guard-true : (b : Bool) (e : CompileError) → guard b e ≡ ok tt → b ≡ true
guard-true true e h = refl
guard-true false e h = cc

not-true : (b : Bool) → not b ≡ true → b ≡ false
not-true true h = cc
not-true false h = refl

check_names-InputName : (names : List Text) → check_names names ≡ ok tt → All InputName names
unfolding check_names
check_names-InputName [] h = tt
check_names-InputName (f ∷ rest) h = elim (Bool-cases (is_input_name f)) [
  | inl e ↦
      let (safe, other) =
        and-eq-true (safe_arg (base f)) (not (has_prefix (base f) (codes "_cgo_"))) e in
      ((safe, not-true _ other), check_names-InputName rest (rw (e, check_names) at h))
  | inr e ↦ cc (rw (e, check_names) at h)
]

InputName-check_names : (names : List Text) → All InputName names → check_names names ≡ ok tt
unfolding check_names
InputName-check_names [] h = refl
InputName-check_names (f ∷ rest) ((safe, other), h) =
    rw (safe, other) (InputName-check_names rest h)

check_files-Accepted : (files : InputFiles) → (check_files files ≡ ok tt) ↔ Accepted files
unfolding check_files
check_files-Accepted files = (
  λ h.
      let record { value = _; came = a; went = h1 } =
        ok_of_bind _ (check_names (files.go_files ++ files.cgo_files)) h in
      let record { value = _; came = b; went = h2 } =
        ok_of_bind _ (guard (has_any files.go_files || has_any files.cgo_files) _) h1 in
      let record { value = _; came = c; went = d } =
        ok_of_bind _ (guard (not (has_any files.m_files)) _) h2 in
      (
        check_names-InputName _ a,
        guard-true _ _ b,
        not-true _ (guard-true _ _ c),
        not-true _ (guard-true _ _ d),
      ),
  λ (names, some_file, no_m, no_swig).
      rw (InputName-check_names _ names, some_file, no_m, no_swig) refl,
)

given-some :
    (found : Option InputFiles) (files : InputFiles) → given found ≡ ok files → found ≡ some files
given-some none files h = cc
given-some (some found) files h = cc

-- What lets a package be compiled the given way.
abbrev pub Compilable : Outcomes → Options → Way → Type 0
Compilable done opts way =
    (done.goroot_found ≡ true)
    × ((text_eq opts.pgo_profile [] || done.preprofiled) ≡ true)
    × (done.directories_made ≡ true)
    × ((files : InputFiles) × (opts.files ≡ some files)
        × Accepted files
        × ((not files.embed_cfg || done.embed_cfg_written) ≡ true)
        × (choose_way files ≡ way))

-- A package reaches the compiler exactly if the Go root is found, its profile, if any, is
-- preprocessed, its directories are made, its embedcfg, if any, is written, and its files are given
-- with at least one Go or cgo file, no Objective-C or SWIG file, and no name that reads as a flag or
-- begins with `_cgo_`; then the files alone choose the way.
pub compile_go_package-Compilable :
    (done : Outcomes) (opts : Options) (way : Way)
    → (compile_go_package done opts ≡ ok way) ↔ Compilable done opts way
unfolding compile_go_package
compile_go_package-Compilable done opts way = (
  λ h.
      let record { value = _; came = a; went = h1 } = ok_of_bind _ (guard done.goroot_found _) h in
      let record { value = _; came = b; went = h2 } =
        ok_of_bind _ (guard (text_eq opts.pgo_profile [] || done.preprofiled) _) h1 in
      let record { value = files; came = c; went = h3 } = ok_of_bind _ (given opts.files) h2 in
      let record { value = _; came = d; went = h4 } = ok_of_bind _ (check_files files) h3 in
      let record { value = _; came = e; went = h5 } =
        ok_of_bind _ (guard done.directories_made _) h4 in
      let record { value = _; came = f; went = g } =
        ok_of_bind _ (guard (not files.embed_cfg || done.embed_cfg_written) _) h5 in
      (
        guard-true _ _ a,
        guard-true _ _ b,
        guard-true _ _ e,
        (files, given-some _ _ c, (check_files-Accepted files).0 d, guard-true _ _ f, ok_cancel g),
      ),
  λ (root, profile, made, (files, found, accepted, embed, chosen)).
      rw (root, profile, found, (check_files-Accepted files).1 accepted, made, embed, chosen) refl,
)
