-- ===== src/TestRunner/Tests.antt =====
-- A module of three packages: the external test of m/a imports m/c, which imports m/b, which imports m/a.
use go2nix.Base.{
  List, [], ◌∷◌, ◌++◌, ◌≡◌, ◌≢◌, refl, sym, subst, ◌⊎◌, inl, inr, ◌↔◌, true, none, some, Text,
  codes, Dict, keys, keys-Memᴰ, ok, err, Memᴰ,
}
use mathlib.Core.List.Memᴰ
use go2nix.Toposort.{import_cycle, toposort}
use go2nix.Toposort.Walk.{Leads}
use go2nix.Toposort.Cycle.{toposort_acyclic}
use go2nix.LocalPackages.{LocalPkg}
use go2nix.Embeds.{merge_embed_cfg}
use go2nix.TestRunner.Affected.{identity, local_deps_of, affected_local_deps}
use go2nix.TestRunner.Affected.Exact.{Reachable, Behind, affected_local_deps_exact}
use go2nix.Importcfg.{raw_lines}
use go2nix.TestRunner.Override.{override_entry}
use go2nix.TestRunner.Override.Entries.{Plain, PlainContent}
use go2nix.TestRunner.Step.{Options, Progress, go_files_only}
use go2nix.TestRunner.Run.{run_package_tests}
use go2nix.TestRunner.Scope.{testable}
use go2nix.TestRunner.Tested.{leads_known, IsTested, run_package_tests-IsTested}

abbrev package_at : Text → List Text → List Text → List Text → LocalPkg
package_at import_path deps tests xtest_imports = record {
  import_path = import_path;
  src_dir = codes "/src/" ++ import_path;
  local_deps = deps;
  test_go_files = tests;
  xtest_go_files = tests;
  test_imports = [];
  xtest_imports = xtest_imports;
  embed_patterns = [];
  test_embed_patterns = [];
  xtest_embed_patterns = [];
  test_embed_files = [];
  xtest_embed_files = [];
  test_embed_cfg = none;
  xtest_embed_cfg = none;
  files = go_files_only (codes "x.go" ∷ []) none;
}

abbrev under_test : LocalPkg
under_test = package_at (codes "m/a") [] (codes "a_test.go" ∷ []) (codes "fmt" ∷ codes "m/c" ∷ [])

abbrev pkg_map : Dict LocalPkg
pkg_map =
    (codes "m/c", package_at (codes "m/c") (codes "m/b" ∷ []) [] [])
    ∷ (codes "m/b", package_at (codes "m/b") (codes "m/a" ∷ []) [] [])
    ∷ (codes "m/a", under_test)
    ∷ []

abbrev opts : Options
opts = record {
  trim_path = codes "/tmp";
  tags = [];
  gc_flags = [];
  import_cfg =
      codes "packagefile m/a=/old/a.a\npackagefile m/b=/old/b.a\npackagefile fmt=/std/fmt.a\n";
  compile_import_cfg = none;
  local_archives = some ((codes "m/a", codes "/old/a.a") ∷ []);
}

overridden :
    override_entry
      (codes "m/a")
      (codes "/new.a")
      (codes "packagefile m/a=/old.a\npackagefile m/ab=/ab.a\n")
    ≡ codes "packagefile m/ab=/ab.a\npackagefile m/a=/new.a\n"
unfolding override_entry
overridden = refl

affected_found :
    affected_local_deps pkg_map (codes "m/a") (codes "m/c" ∷ [])
    ≡ ok (codes "m/b" ∷ codes "m/c" ∷ [])
unfolding affected_local_deps
affected_found = refl

in_scope_only :
    testable opts (under_test ∷ package_at (codes "m/d") [] (codes "d_test.go" ∷ []) [] ∷ [])
    ≡ under_test ∷ []
unfolding testable
in_scope_only = refl

affected_local_deps_exact_example :
    ((result : List Text) × (affected_local_deps pkg_map (codes "m/a") (codes "m/c" ∷ [])
        ≡ ok result)
      × ((k : Text)
          → Memᴰ k result ↔ (
              (k ≢ codes "m/a")
              × Reachable pkg_map (codes "m/c" ∷ []) k
              × Leads (local_deps_of pkg_map) k (codes "m/a")))
      × ((k : Text) → Memᴰ k result → Behind pkg_map result k))
    ⊎ ((c : Text) × (affected_local_deps pkg_map (codes "m/a") (codes "m/c" ∷ [])
          ≡ err (import_cycle c))
        × Leads (local_deps_of pkg_map) c c)
affected_local_deps_exact_example =
    affected_local_deps_exact pkg_map (codes "m/a") (codes "m/c" ∷ [])

local_sorted :
    toposort (identity (keys pkg_map)) (local_deps_of pkg_map) 5
    ≡ ok (codes "m/a" ∷ codes "m/b" ∷ codes "m/c" ∷ [])
unfolding toposort
local_sorted = refl

acyclic : (c : Text) → ¬ Leads (local_deps_of pkg_map) c c
acyclic c w =
    let (p, found) = leads_known pkg_map w in
    toposort_acyclic (identity (keys pkg_map)) (local_deps_of pkg_map) 5
      (codes "m/a" ∷ codes "m/b" ∷ codes "m/c" ∷ []) c c local_sorted (keys-Memᴰ c pkg_map found)
      (inl refl) w

keys-Plain : (k : Text) → Memᴰ k (keys pkg_map) → Plain k
keys-Plain k m = elim (Memᴰ.cases_cons m) [
  | inl e ↦ subst Plain (sym e) ((refl, refl), refl)
  | inr n ↦ elim (Memᴰ.cases_cons n) [
    | inl e ↦ subst Plain (sym e) ((refl, refl), refl)
    | inr o ↦ subst Plain (sym (Memᴰ.eq_of_singleton o)) ((refl, refl), refl)
  ]
]

merged : merge_embed_cfg under_test.files.embed_cfg under_test.test_embed_cfg ≡ ok none
unfolding merge_embed_cfg
merged = refl

plain_lines : PlainContent opts.import_cfg
unfolding raw_lines
plain_lines = ((refl, refl), ((refl, refl), ((refl, refl), tt)))

run_package_tests-IsTested_example :
    (pr : Progress) × (run_package_tests (λ _. true) opts [] true true true pkg_map under_test
      ≡ ok pr)
    × IsTested opts (λ _. true) [] pkg_map under_test pr
run_package_tests-IsTested_example =
    run_package_tests-IsTested opts (λ _. true) [] pkg_map under_test (λ _. refl) (refl, refl)
      ((refl, refl), refl) keys-Plain none plain_lines plain_lines refl refl merged acyclic refl
