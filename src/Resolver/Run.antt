-- ===== src/Resolver/Run.antt =====
-- Resolve of go/go2nix/pkg/resolve/resolve.go, from the listed packages to the final derivation.
use go2nix.Base.{List, [], Option, Text, Dict, Result, ok, ◌>>=◌}
use go2nix.Toposort.{SortError}
use go2nix.Scripts.{compile_script}
use go2nix.Graph.Packages.{Pkg}
use go2nix.Graph.{GraphError, build_package_graph, topo_sort}
use go2nix.NixDrv.Placeholder.{StorePath}
use go2nix.NixDrv.Derivation.{Derivation}
use go2nix.Resolver.Config.{Config, Tools, ResolveError, map_err}
use go2nix.Resolver.Package.{Overrides}
use go2nix.Resolver.Steps.{
  StageError, RegisterError, stage_local_sources, build_packages, register_derivations,
  register_package_derivations,
}
use go2nix.Resolver.Link.{build_final_drv}

pub data RunError : Type 0 where
  graph_failed : GraphError → RunError
  sort_failed : SortError → RunError
  stage_failed : StageError → RunError
  build_failed : ResolveError → RunError
  register_failed : RegisterError → RunError

module _ (tools : Tools) (show : Text → Text → Text) (rel : Text → Text → Option Text)
    {Store : Type 0} (add : Derivation → Store → Option (StorePath × Store))
    (store_add : Text → Text → List Text → Option StorePath) where
  -- Steps 6 to 9, with the path of the final derivation and what the store then holds.
  unfoldable pub resolve_packages :
      Config
      → Overrides
      → Dict StorePath
      → Text
      → List Pkg
      → Store
      → Result RunError (StorePath × Store)
  unfolding build_package_graph topo_sort stage_local_sources compile_script build_packages
      register_package_derivations build_final_drv register_derivations
  resolve_packages cfg overrides fod_paths src_root pkgs store = do
    graph ← map_err graph_failed (build_package_graph show rel pkgs fod_paths src_root)
    sorted ← map_err sort_failed (topo_sort graph)
    (count, staged) ← map_err stage_failed (stage_local_sources tools.sha256 store_add sorted)
    (drvs, drv_paths) ←
        map_err build_failed (
          build_packages tools cfg graph staged overrides (compile_script cfg.go2nix_bin) sorted [])
    with_packages ← map_err register_failed (register_package_derivations tools add drvs store)
    (final, finals) ← map_err build_failed (build_final_drv tools drv_paths cfg graph sorted)
    with_finals ← map_err register_failed (register_derivations tools add finals with_packages)
    ok (final, with_finals)
