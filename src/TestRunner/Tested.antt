-- ===== src/TestRunner/Tested.antt =====
-- A test run with internal and external tests, from the importcfgs of the build to the test binary.
use go2nix.Base.{
  ℕ, List, [], ◌∷◌, ◌++◌, ◌≡◌, ◌≢◌, refl, sym, ap, subst, ◌∙◌, inl, inr, ◌⊎◌, ⊎_elim, Bool, true,
  Option, none, some, Option-cases, Text, codes, text_eq, text_eq_refl, any, length, length-append,
  Dict, lookup, keys, keys-Memᴰ, ok, Memᴰ, Memᴰ-snoc, arith,
}
use mathlib.Core.List.Memᴰ
use go2nix.Toposort.Walk.{Leads}
use go2nix.Manifest.{EmbedCfg}
use go2nix.LocalPackages.{LocalPkg}
use go2nix.Embeds.{merge_embed_cfg}
use go2nix.Importcfg.Lines.{Clean}
use go2nix.TestRunner.Affected.{filter_texts, local_deps_of}
use go2nix.TestRunner.Affected.Exact.{Reachable, affected_local_deps_exact}
use go2nix.TestRunner.Override.Entries.{Plain, Plain-append, PlainContent, Clean-append}
use go2nix.TestRunner.Step.{
  Options, Call, Progress, test_dir, internal_archive, recompiled_archive, compile_content,
  override_both, internal_test_pkg_files,
}
use go2nix.TestRunner.Run.{
  compile_internal, internal_call, external_call, main_call, recompile_affected, compile_call,
  compile_new, first_progress, has_internal, has_external, run_package_tests,
}
use go2nix.TestRunner.Entered.{
  Entered, Good, override_both-Good, calls-override_both, test_dir-Clean,
}
use go2nix.TestRunner.Consistent.{compile_new_lem, with_call, CallFor, recompile_lem}

longer_other : (s t : Text) (c : ℕ) → s ≢ s ++ c ∷ t
longer_other s t c e =
    absurd (omega (arith, ap (length {A = ℕ}) e, length-append {A = ℕ} s (c ∷ t)))

pub leads_known :
    (pkg_map : Dict LocalPkg) {k x : Text}
    → Leads (local_deps_of pkg_map) k x
    → (p : LocalPkg) × (lookup k pkg_map ≡ some p)
leads_known pkg_map {k} (Leads.edge {b = b} m) = elim (Option-cases (lookup k pkg_map)) [
  | inl n ↦ absurd (Memᴰ.not-nil (rw (n, local_deps_of) at m))
  | inr found ↦ found
]
leads_known pkg_map (Leads.via w m) = leads_known pkg_map w

module _ (opts : Options) (compile : Call → Bool) (go_versions : Dict Text)
    (pkg_map : Dict LocalPkg) (pkg : LocalPkg) where
  abbrev pub local_imports : List Text
  local_imports = filter_texts (λ imp. any (text_eq imp) (keys pkg_map)) pkg.xtest_imports

  -- A package, other than the one under test, that the external test reaches and that depends on the
  -- one under test.
  abbrev pub Rebuilt : Text → Type 0
  Rebuilt k =
      (k ≢ pkg.import_path)
      × Reachable pkg_map local_imports k
      × Leads (local_deps_of pkg_map) k pkg.import_path

  abbrev pub Renewed : Text → Type 0
  Renewed d = (d ≡ pkg.import_path) ⊎ Rebuilt d

  -- What the run did for the packages that are compiled again, and with what it linked.
  pub record IsTested (pr : Progress) : Type 0 where
    pub called :
        (k : Text)
        → Rebuilt k
        → (call : Call) × Memᴰ call pr.calls
          × (call.import_path ≡ k)
          × (call.output ≡ recompiled_archive opts pkg.import_path k)
          × ((d : Text)
              → Memᴰ d (local_deps_of pkg_map k)
              → Renewed d
              → Entered opts pkg.import_path call.import_cfg d)
    pub linked : (k : Text) → Renewed k → Entered opts pkg.import_path pr.link_cfg k

  module _ (compiles : (call : Call) → compile call ≡ true) (clean_dir : Clean opts.trim_path)
      (plain : Plain pkg.import_path)
      (plain_keys : (k : Text) → Memᴰ k (keys pkg_map) → Plain k) where
    abbrev Under : Text → Type 0
    Under d = d ≡ pkg.import_path

    internal_Good :
        (call : Call) (pr : Progress)
        → Good opts pkg.import_path (λ _. ⊥) pr
        → Good opts pkg.import_path Under (
            override_both pkg.import_path
              (internal_archive opts pkg.import_path)
              (record pr { calls = pr.calls ++ call ∷ [] }))
    internal_Good call pr g =
        override_both-Good opts pkg.import_path (λ _. ⊥) Under pkg.import_path
          (internal_archive opts pkg.import_path) (record pr { calls = pr.calls ++ call ∷ [] })
          (record {
            plain_link = g.plain_link;
            plain_compile = g.plain_compile;
            named = g.named;
            linked = g.linked;
            compiled = g.compiled;
          })
          plain
          (Clean-append (test_dir opts pkg.import_path) (codes "/internal.a")
            (test_dir-Clean opts pkg.import_path clean_dir plain.0) (refl, refl))
          (λ d e. subst Plain (sym e) plain)
          (λ d e.
            inl (e, rw (ap (λ x. text_eq x pkg.import_path) e, text_eq_refl pkg.import_path) refl))

    compile_internal_lem :
        (cfg : Option EmbedCfg) (pr : Progress)
        → merge_embed_cfg pkg.files.embed_cfg pkg.test_embed_cfg ≡ ok cfg
        → compile_internal compile opts go_versions pkg pr
          ≡ ok (
              override_both pkg.import_path (internal_archive opts pkg.import_path) (
                with_call opts pkg.import_path compile compiles go_versions pkg_map clean_dir
                  plain.0
                  (internal_call compile opts go_versions pkg cfg pr)
                  pr))
    unfolding compile_internal internal_test_pkg_files
    compile_internal_lem cfg pr h = rw h (
        compile_new_lem opts pkg.import_path compile compiles go_versions pkg_map clean_dir plain.0
          (internal_call compile opts go_versions pkg cfg pr) pr)

    Rebuilt-known :
        (k : Text)
        → Rebuilt k
        → ((p : LocalPkg) × (lookup k pkg_map ≡ some p)) × Plain k × (k ≢ pkg.import_path)
    Rebuilt-known k (n, _, w) =
        let (p, found) = leads_known pkg_map w in
        ((p, found), plain_keys k (keys-Memᴰ k pkg_map found), n)

    recompile_affected_lem :
        (pr : Progress)
        → ((c : Text) → ¬ Leads (local_deps_of pkg_map) c c)
        → Good opts pkg.import_path Under pr
        → (after : Progress) × (recompile_affected compile opts go_versions pkg_map pkg pr
            ≡ ok after)
          × Good opts pkg.import_path Renewed after
          × ((k : Text)
              → Rebuilt k
              → CallFor opts pkg.import_path compile compiles go_versions pkg_map clean_dir plain.0
                  (λ d. Memᴰ d (local_deps_of pkg_map k) × Renewed d)
                  after.calls
                  k)
    unfolding recompile_affected
    recompile_affected_lem pr acyclic g =
        elim (affected_local_deps_exact pkg_map pkg.import_path local_imports) [
          | inr (c, _, w) ↦ absurd (acyclic c w)
          | inl (affected, h, same, behind) ↦
              let (after, q, r) =
                recompile_lem opts pkg.import_path compile compiles go_versions pkg_map clean_dir
                  plain.0 Under affected pr (λ k m. Rebuilt-known k ((same k).0 m)) g in
              (
                after,
                rw h q,
                record {
                  plain_link = r.good.plain_link;
                  plain_compile = r.good.plain_compile;
                  named = λ d e. r.good.named d (⊎_elim inl (λ b. inr ((same d).1 b)) e);
                  linked = λ d e. r.good.linked d (⊎_elim inl (λ b. inr ((same d).1 b)) e);
                  compiled = λ d e. r.good.compiled d (⊎_elim inl (λ b. inr ((same d).1 b)) e);
                },
                λ k rebuilt.
                    let (before, rest, e, deps_before) = behind k ((same k).1 rebuilt) in
                    let (call, m, named, output, all) = r.called before k rest e in
                    (
                      call,
                      m,
                      named,
                      output,
                      λ d (i, renewed).
                          all d (⊎_elim inl (λ b. inr (deps_before d i ((same d).1 b))) renewed),
                    ),
              )
        ]

    Renewed-other :
        (d : Text)
        → lookup (pkg.import_path ++ codes "_test") pkg_map ≡ none
        → Renewed d
        → d ≢ pkg.import_path ++ codes "_test"
    Renewed-other d free (inl e) q = longer_other pkg.import_path (codes "test") b'_' (sym e ∙ q)
    Renewed-other d free (inr (_, _, w)) q =
        let (p, found) = leads_known pkg_map w in cc (free, found, ap (λ x. lookup x pkg_map) q)

    external_Good :
        (pr : Progress)
        → lookup (pkg.import_path ++ codes "_test") pkg_map ≡ none
        → Good opts pkg.import_path Renewed pr
        → Good opts pkg.import_path Renewed (
            override_both
              (pkg.import_path ++ codes "_test")
              (test_dir opts pkg.import_path ++ codes "/external.a")
              (record pr {
                calls = pr.calls ++ external_call compile opts go_versions pkg pr ∷ [];
              }))
    external_Good pr free g =
        override_both-Good opts pkg.import_path Renewed Renewed (pkg.import_path ++ codes "_test")
          (test_dir opts pkg.import_path ++ codes "/external.a")
          (record pr { calls = pr.calls ++ external_call compile opts go_versions pkg pr ∷ [] })
          (record {
            plain_link = g.plain_link;
            plain_compile = g.plain_compile;
            named = g.named;
            linked = g.linked;
            compiled = g.compiled;
          })
          (Plain-append pkg.import_path (codes "_test") plain ((refl, refl), refl))
          (Clean-append (test_dir opts pkg.import_path) (codes "/external.a")
            (test_dir-Clean opts pkg.import_path clean_dir plain.0) (refl, refl))
          g.named (λ d e. inr (Renewed-other d free e, e))

    finish_lem :
        (pr : Progress)
        → lookup (pkg.import_path ++ codes "_test") pkg_map ≡ none
        → Good opts pkg.import_path Renewed pr
        → ((k : Text)
            → Rebuilt k
            → CallFor opts pkg.import_path compile compiles go_versions pkg_map clean_dir plain.0
                (λ d. Memᴰ d (local_deps_of pkg_map k) × Renewed d)
                pr.calls
                k)
        → (tested : Progress) × (after : Progress) × (compile_new compile
              (external_call compile opts go_versions pkg pr)
              pr
            ≡ ok tested)
          × (compile_call compile (main_call compile opts go_versions pkg tested) tested ≡ ok after)
          × IsTested after
    unfolding compile_call
    finish_lem pr free g called =
        let external = external_call compile opts go_versions pkg pr in
        let linked =
          override_both (pkg.import_path ++ codes "_test")
            (test_dir opts pkg.import_path ++ codes "/external.a")
            (record pr { calls = pr.calls ++ external ∷ [] }) in
        let last = main_call compile opts go_versions pkg linked in
        (
          linked,
          record linked { calls = linked.calls ++ last ∷ [] },
          compile_new_lem opts pkg.import_path compile compiles go_versions pkg_map clean_dir
              plain.0 external pr,
          rw (compiles last) refl,
          record {
            called = λ k rebuilt.
                let (call, m, named, output, all) = called k rebuilt in
                (
                  call,
                  (Memᴰ-snoc call last linked.calls).1 (
                      inl (
                        subst (Memᴰ call)
                          (sym (
                            calls-override_both (pkg.import_path ++ codes "_test")
                              (test_dir opts pkg.import_path ++ codes "/external.a")
                              (record pr { calls = pr.calls ++ external ∷ [] })))
                          ((Memᴰ-snoc call external pr.calls).1 (inl m)))),
                  named,
                  output,
                  λ d i renewed. all d (i, renewed),
                );
            linked = (external_Good pr free g).linked;
          },
        )

    steps_lem :
        (a b c d : Progress)
        → has_internal compile opts go_versions pkg ≡ true
        → has_external compile opts go_versions pkg ≡ true
        → compile_internal compile opts go_versions pkg (first_progress compile opts go_versions)
          ≡ ok a
        → recompile_affected compile opts go_versions pkg_map pkg a ≡ ok b
        → compile_new compile (external_call compile opts go_versions pkg b) b ≡ ok c
        → compile_call compile (main_call compile opts go_versions pkg c) c ≡ ok d
        → run_package_tests compile opts go_versions true true true pkg_map pkg ≡ ok d
    unfolding run_package_tests
    steps_lem a b c d internal external e f g h = rw (internal, external, e, f, g, h) refl

    -- With internal and external tests, where every compilation and what comes behind them goes
    -- well, the embed configurations can be merged, no local package depends on itself, no local
    -- package has the import path of the external test, paths have no newline, carriage return or
    -- equals sign, the trim path has neither of the first two, and the importcfgs have no carriage
    -- return, a test run ends without an error; each package that the external test reaches and
    -- that depends on the package under test is compiled again, with an importcfg in which the
    -- only entry for each of its dependencies of this kind, and for the package under test, is the
    -- new archive, and these are the only entries for them that the test binary is linked with.
    pub run_package_tests-IsTested :
        (cfg : Option EmbedCfg)
        → PlainContent opts.import_cfg
        → PlainContent (compile_content (first_progress compile opts go_versions))
        → has_internal compile opts go_versions pkg ≡ true
        → has_external compile opts go_versions pkg ≡ true
        → merge_embed_cfg pkg.files.embed_cfg pkg.test_embed_cfg ≡ ok cfg
        → ((c : Text) → ¬ Leads (local_deps_of pkg_map) c c)
        → lookup (pkg.import_path ++ codes "_test") pkg_map ≡ none
        → (pr : Progress) × (run_package_tests compile opts go_versions true true true pkg_map pkg
            ≡ ok pr)
          × IsTested pr
    run_package_tests-IsTested cfg plain_link plain_compile internal external merged acyclic free =
        let first = first_progress compile opts go_versions in
        let g : Good opts pkg.import_path (λ _. ⊥) first = record {
          plain_link = plain_link;
          plain_compile = plain_compile;
          named = λ d. absurd;
          linked = λ d. absurd;
          compiled = λ d. absurd;
        } in
        let call = internal_call compile opts go_versions pkg cfg first in
        let (p, q, good, called) =
          recompile_affected_lem
            (override_both pkg.import_path (internal_archive opts pkg.import_path)
              (record first { calls = first.calls ++ call ∷ [] }))
            acyclic (internal_Good call first g) in
        let (third, after, h, k, tested) = finish_lem p free good called in
        (
          after,
          steps_lem _ p third after internal external (compile_internal_lem cfg first merged) q h k,
          tested,
        )
