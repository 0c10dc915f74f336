-- ===== src/Resolver/Unsupported.antt =====
-- What the compiler is told of a package that the resolver builds.
use go2nix.Base.{
  List, [], ◌∷◌, ◌++◌, ◌≡◌, ◌≢◌, refl, sym, ap, subst, ◌∙◌, inl, inr, Bool, true, false, not, ◌||◌,
  Bool-cases, Option, some, Text, sort, Result, ok, err, ◌>>=◌, ok_of_bind, ok_cancel,
}
use go2nix.Compile.{
  InputFiles, CompileError, invalid_name, no_go_files, objective_c, swig, is_input_name,
  check_names, guard, has_any, check_files,
}
use go2nix.Manifest.{
  CompileManifest, EmbedCfg, PkgFiles, decoded, load_compile_manifest, without_embeds, embeds_of,
  to_pkg_files, input_files,
}
use go2nix.Graph.{ResolvedFiles}
use go2nix.Resolver.Config.{Config}
use go2nix.Resolver.Package.{Package, manifest_files, compile_manifest}

check_names-eq-err :
    (names : List Text) (e : CompileError)
    → check_names names ≡ err e
    → (f : Text) × (e ≡ invalid_name f)
unfolding check_names
check_names-eq-err [] e h = cc
check_names-eq-err (f ∷ names) e h = elim (Bool-cases (is_input_name f)) [
  | inl q ↦ check_names-eq-err names e (rw (q, check_names) at h)
  | inr q ↦ (f, err_cancel (sym (rw (q, check_names) at h)))
]
  where
    err_cancel :
        {x y : CompileError} → ◌≡◌ {A = Result CompileError (Unit {0})} (err x) (err y) → x ≡ y
    err_cancel h = cc

abbrev chain : Result CompileError (Unit {0}) → Bool → Bool → Bool → Result CompileError (Unit {0})
chain names some_go no_m no_swig = do
  _ ← names
  _ ← guard some_go no_go_files
  _ ← guard no_m objective_c
  guard no_swig swig

chain_supported :
    (names : Result CompileError (Unit {0})) (some_go no_m no_swig : Bool)
    → ((e : CompileError) → names ≡ err e → (f : Text) × (e ≡ invalid_name f))
    → no_m ≡ true
    → no_swig ≡ true
    → (chain names some_go no_m no_swig ≢ err objective_c)
      × (chain names some_go no_m no_swig ≢ err swig)
chain_supported (ok _) true true true named m s = (λ h. cc, λ h. cc)
chain_supported (ok _) false true true named m s = (λ h. cc, λ h. cc)
chain_supported (err e) b c d named m s =
    let (f, q) = named e refl in (λ h. cc (q, h), λ h. cc (q, h))
chain_supported (ok _) b false d named m s = cc
chain_supported (ok _) b true false named m s = cc

-- Where no such files are seen, the check of a package's files fails for another reason, if it does.
check_files_supported :
    (files : InputFiles)
    → files.m_files ≡ []
    → files.swig_files ≡ []
    → files.swig_cxx_files ≡ []
    → (check_files files ≢ err objective_c) × (check_files files ≢ err swig)
unfolding check_files
check_files_supported files m s x =
    chain_supported (check_names (files.go_files ++ files.cgo_files))
      (has_any files.go_files || has_any files.cgo_files) (not (has_any files.m_files))
      (not (has_any files.swig_files || has_any files.swig_cxx_files))
      (check_names-eq-err (files.go_files ++ files.cgo_files)) (ap (λ l. not (has_any l)) m)
      (ap (λ l. not (has_any l || has_any files.swig_cxx_files)) s ∙ ap (λ l. not (has_any l)) x)

-- The files of the package as compile-package has them, the embedded ones aside.
abbrev pub SameFiles : ResolvedFiles → PkgFiles → Type 0
SameFiles files pf =
    (pf.go_files ≡ files.go_files)
    × (pf.cgo_files ≡ files.cgo_files)
    × (pf.s_files ≡ files.s_files)
    × (pf.c_files ≡ files.c_files)
    × (pf.cxx_files ≡ files.cxx_files)
    × (pf.f_files ≡ files.f_files)
    × (pf.h_files ≡ files.h_files)
    × (pf.syso_files ≡ files.syso_files)

abbrev NoUnsupported : PkgFiles → Type 0
NoUnsupported pf = (pf.m_files ≡ []) × (pf.swig_files ≡ []) × (pf.swig_cxx_files ≡ [])

embeds_of-SameFiles :
    {E : Type 0} (resolve : List Text → Result E EmbedCfg) (files : ResolvedFiles)
    (patterns : List Text) (pf : PkgFiles)
    → embeds_of resolve (without_embeds (manifest_files files)) patterns ≡ ok pf
    → SameFiles files pf × NoUnsupported pf
unfolding sort
embeds_of-SameFiles resolve files [] pf h =
    subst (λ x. SameFiles files x × NoUnsupported x) (ok_cancel h)
      ((refl, refl, refl, refl, refl, refl, refl, refl), (refl, refl, refl))
embeds_of-SameFiles resolve files (p ∷ ps) pf h =
    let record { value = cfg; came = _; went = w } = ok_of_bind _ (resolve (p ∷ ps)) h in
    subst (λ x. SameFiles files x × NoUnsupported x) (ok_cancel w)
      ((refl, refl, refl, refl, refl, refl, refl, refl), (refl, refl, refl))

-- The manifest that the resolver gives to compile-package, the place of the importcfg filled in, is
-- accepted and gives the files of the package, embedded ones aside; but for a package with
-- Objective-C or SWIG files too, since it names none of these, the checks of CompileGoPackage do not
-- fail for such files.
pub load-compile_manifest :
    {E : Type 0} (unmarshal : Text → Option CompileManifest)
    (resolve : List Text → Result E EmbedCfg) (cfg : Config) (pkg : Package) (parts : List Text)
    (text : Text) (pf : PkgFiles)
    → unmarshal text ≡ some (record (compile_manifest cfg pkg) { importcfg_parts = parts })
    → to_pkg_files resolve (manifest_files pkg.files) ≡ ok pf
    → (load_compile_manifest unmarshal (some text)
        ≡ ok (record (compile_manifest cfg pkg) { importcfg_parts = parts }))
      × ((compile_manifest cfg pkg).files ≡ some (manifest_files pkg.files))
      × SameFiles pkg.files pf
      × (check_files (input_files pf) ≢ err objective_c)
      × (check_files (input_files pf) ≢ err swig)
unfolding load_compile_manifest compile_manifest to_pkg_files
load-compile_manifest unmarshal resolve cfg pkg parts text pf decodes h =
    let (same, (m, s, x)) = embeds_of-SameFiles resolve pkg.files pkg.files.embed_patterns pf h in
    let (not_m, not_swig) = check_files_supported (input_files pf) m s x in
    (rw (decodes, decoded) refl, refl, same, not_m, not_swig)
