-- ===== src/TestRunner/Scope.antt =====
-- Run of go/go2nix/pkg/testrunner/testrunner.go: the packages that are tested, and the loop over them.
use go2nix.Base.{
  List, [], ◌∷◌, Bool, true, ◌&&◌, Option, none, some, Text, text_eq, any, Dict, insert, keys,
  Result, ok, err, ◌>>=◌, if◌then◌else◌,
}
use go2nix.Graph.Packages.{is_empty}
use go2nix.LocalPackages.{LocalPkg}
use go2nix.TestRunner.Step.{Options, Progress, TestError, not_prepared}

-- Whether a package has an archive among the local ones, if there is such a list.
abbrev pub in_scope : Options → Text → Bool
in_scope opts import_path = elim opts.local_archives [
  | none ↦ true
  | some archives ↦ any (text_eq import_path) (keys archives)
]

-- The packages with tests that are in scope.
unfoldable pub testable : Options → List LocalPkg → List LocalPkg
testable opts [] = []
testable opts (pkg ∷ pkgs) =
    let rest = testable opts pkgs in
    if is_empty pkg.test_go_files && is_empty pkg.xtest_go_files
    then rest
    else if in_scope opts pkg.import_path
    then pkg ∷ rest
    else rest

abbrev pub cons_given : {A : Type 0} → Option A → Option (List A) → Option (List A)
cons_given none rest = none
cons_given (some a) none = none
cons_given (some a) (some rest) = some (a ∷ rest)

-- The packages in scope after their overlays and with their embedded files, where all of these are
-- found; `resolve` answers for a package.
abbrev pub prepared :
    Options → (LocalPkg → Option LocalPkg) → List LocalPkg → Option (List LocalPkg)
prepared opts resolve [] = some []
prepared opts resolve (pkg ∷ pkgs) =
    let rest = prepared opts resolve pkgs in
    if in_scope opts pkg.import_path
    then cons_given (resolve pkg) rest
    else cons_given (some pkg) rest

abbrev pub map_of : List LocalPkg → Dict LocalPkg
map_of [] = []
map_of (pkg ∷ pkgs) = insert pkg.import_path pkg (map_of pkgs)

-- The loop over the packages with tests, which `test` runs with the map of all packages.
abbrev pub run_all :
    (LocalPkg → Result TestError Progress) → List LocalPkg → Result TestError (List Progress)
run_all test [] = ok []
run_all test (pkg ∷ pkgs) = do pr ← test pkg; rest ← run_all test pkgs; ok (pr ∷ rest)

abbrev pub run_prepared :
    Options
    → (Dict LocalPkg → LocalPkg → Result TestError Progress)
    → Option (List LocalPkg)
    → Result TestError (List Progress)
unfolding testable
run_prepared opts test none = err not_prepared
run_prepared opts test (some pkgs) = run_all (test (map_of pkgs)) (testable opts pkgs)

-- Run, of the packages that it lists.
unfoldable pub run :
    Options
    → (LocalPkg → Option LocalPkg)
    → (Dict LocalPkg → LocalPkg → Result TestError Progress)
    → List LocalPkg
    → Result TestError (List Progress)
unfolding testable
run opts resolve test pkgs =
    if is_empty (testable opts pkgs)
    then ok []
    else run_prepared opts test (prepared opts resolve pkgs)

-- The language versions of the packages in scope; `find_go_version` reads the go.mod above a directory.
unfoldable pub lang_versions : Options → (Text → Text) → List LocalPkg → Dict Text
lang_versions opts find_go_version [] = []
lang_versions opts find_go_version (pkg ∷ pkgs) =
    let rest = lang_versions opts find_go_version pkgs in
    if in_scope opts pkg.import_path
    then insert pkg.import_path (find_go_version pkg.src_dir) rest
    else rest
