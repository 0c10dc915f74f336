-- ===== src/TestRunner/Run.antt =====
-- runPackageTests of go/go2nix/pkg/testrunner/testrunner.go: the compilations for a test, with the
-- contents of the importcfgs that they read. What compiling, generating a test main, linking and
-- running answer is an argument; copying and writing files does not fail here.
use go2nix.Base.{
  List, [], ◌∷◌, ◌++◌, Bool, true, false, not, ◌&&◌, Option, none, some, Text, codes, text_eq, any,
  Dict, lookup, keys, Result, ok, err, ◌>>=◌, if◌then◌else◌,
}
use go2nix.Graph.Packages.{is_empty}
use go2nix.Graph.{or_empty}
use go2nix.Manifest.{EmbedCfg}
use go2nix.Resolver.Config.{map_err}
use go2nix.LocalPackages.{LocalPkg}
use go2nix.Embeds.{merge_embed_cfg}
use go2nix.TestRunner.Affected.{filter_texts, affected_local_deps}
use go2nix.TestRunner.Step.{
  Options, Call, Progress, TestError, go_files_only, internal_test_pkg_files, test_dir,
  recompiled_archive, internal_archive, compile_content, override_both, embeds_not_merged,
  not_sorted, not_compiled, no_test_main, not_linked, tests_failed,
}

module _ (compile : Call → Bool) where
  unfoldable pub compile_call : Call → Progress → Result TestError Progress
  compile_call call pr =
      if compile call
      then ok (record pr { calls = pr.calls ++ call ∷ [] })
      else err (not_compiled call.import_path)

  -- A compilation whose archive takes the place of the package's.
  unfoldable pub compile_new : Call → Progress → Result TestError Progress
  unfolding compile_call override_both
  compile_new call pr = do
    done ← compile_call call pr
    ok (override_both call.import_path call.output done)

  module _ (opts : Options) (go_versions : Dict Text) where
    abbrev pub version_at : Text → Text
    version_at import_path = or_empty (lookup import_path go_versions)

    abbrev pub internal_call : LocalPkg → Option EmbedCfg → Progress → Call
    unfolding internal_test_pkg_files
    internal_call pkg cfg pr = record {
      import_path = pkg.import_path;
      p_flag = [];
      src_dir = pkg.src_dir;
      output = internal_archive opts pkg.import_path;
      import_cfg = compile_content pr;
      go_version = version_at pkg.import_path;
      files = internal_test_pkg_files pkg cfg;
    }

    unfoldable pub compile_internal : LocalPkg → Progress → Result TestError Progress
    unfolding merge_embed_cfg compile_new internal_test_pkg_files
    compile_internal pkg pr = do
      cfg ← map_err embeds_not_merged (merge_embed_cfg pkg.files.embed_cfg pkg.test_embed_cfg)
      compile_new (internal_call pkg cfg pr) pr

    abbrev pub recompile_call : Text → Text → LocalPkg → Progress → Call
    recompile_call target dep pkg pr = record {
      import_path = dep;
      p_flag = [];
      src_dir = pkg.src_dir;
      output = recompiled_archive opts target dep;
      import_cfg = compile_content pr;
      go_version = version_at dep;
      files = pkg.files;
    }

    -- The loop over the affected packages.
    unfoldable pub recompile :
        Dict LocalPkg → Text → List Text → Progress → Result TestError Progress
    unfolding compile_new
    recompile pkg_map target [] pr = ok pr
    recompile pkg_map target (dep ∷ deps) pr = elim (lookup dep pkg_map) [
      | none ↦ recompile pkg_map target deps pr
      | some pkg ↦
          compile_new (recompile_call target dep pkg pr) pr >>= recompile pkg_map target deps
    ]

    unfoldable pub recompile_affected :
        Dict LocalPkg → LocalPkg → Progress → Result TestError Progress
    unfolding recompile affected_local_deps
    recompile_affected pkg_map pkg pr = do
      affected ← map_err not_sorted (
          affected_local_deps pkg_map pkg.import_path
            (filter_texts (λ imp. any (text_eq imp) (keys pkg_map)) pkg.xtest_imports))
      recompile pkg_map pkg.import_path affected pr

    abbrev pub external_call : LocalPkg → Progress → Call
    external_call pkg pr = record {
      import_path = pkg.import_path ++ codes "_test";
      p_flag = [];
      src_dir = pkg.src_dir;
      output = test_dir opts pkg.import_path ++ codes "/external.a";
      import_cfg = compile_content pr;
      go_version = version_at pkg.import_path;
      files = go_files_only pkg.xtest_go_files pkg.xtest_embed_cfg;
    }

    abbrev pub main_call : LocalPkg → Progress → Call
    main_call pkg pr = record {
      import_path = pkg.import_path ++ codes ".test";
      p_flag = codes "main";
      src_dir = test_dir opts pkg.import_path;
      output = test_dir opts pkg.import_path ++ codes "/testmain.a";
      import_cfg = compile_content pr;
      go_version = version_at pkg.import_path;
      files = go_files_only (codes "_testmain.go" ∷ []) none;
    }

    -- A step that is taken under a condition.
    abbrev pub step_if :
        Bool → (Progress → Result TestError Progress) → Progress → Result TestError Progress
    step_if true step pr = step pr
    step_if false step pr = ok pr

    abbrev pub check_step : Bool → TestError → Progress → Result TestError Progress
    check_step true e pr = ok pr
    check_step false e pr = err e

    -- The importcfgs as they are copied.
    abbrev pub first_progress : Progress
    first_progress = record {
      link_cfg = opts.import_cfg;
      compile_cfg = opts.compile_import_cfg;
      calls = [];
    }

    abbrev pub has_internal : LocalPkg → Bool
    has_internal pkg = not (is_empty pkg.test_go_files)

    abbrev pub has_external : LocalPkg → Bool
    has_external pkg = not (is_empty pkg.xtest_go_files)

    -- `generated`, `linked` and `passed` tell how making the test main, linking and running end.
    unfoldable pub run_package_tests :
        (generated linked passed : Bool) → Dict LocalPkg → LocalPkg → Result TestError Progress
    unfolding compile_internal recompile_affected compile_new compile_call
    run_package_tests generated linked passed pkg_map pkg = do
      internal ← step_if (has_internal pkg) (compile_internal pkg) first_progress
      recompiled ←
          step_if (has_internal pkg && has_external pkg) (recompile_affected pkg_map pkg) internal
      external ← step_if (has_external pkg) (λ pr. compile_new (external_call pkg pr) pr) recompiled
      with_main ← check_step generated no_test_main external
      tested ← compile_call (main_call pkg with_main) with_main
      in_link ← check_step linked not_linked tested
      check_step passed tests_failed in_link
