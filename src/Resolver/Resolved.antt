-- ===== src/Resolver/Resolved.antt =====
-- From the listed packages to the derivations in the store.
use go2nix.Base.{
  ℕ, suc, List, [], ◌∷◌, ◌≡◌, refl, sym, ap, subst, ◌∙◌, inl, inr, ◌⊎◌, true, false, Option, some,
  Text, length, Dict, lookup, keys-Memᴰ, Memᴰ, Bool-cases, none, ◌≢◌, ok, ok_cancel,
}
use mathlib.Core.List.Memᴰ
use go2nix.Toposort.Order.{toposort_ordered}
use go2nix.Graph.Packages.{is_empty, Pkg}
use go2nix.Graph.{imports_in, graph_keys, topo_sort, build_package_graph}
use go2nix.Graph.Order.{collect-Memᴰ, Memᴰ-collect}
use go2nix.Graph.Resolved.{build_package_graph_cases}
use go2nix.NixDrv.Placeholder.{StorePath}
use go2nix.NixDrv.Derivation.{Derivation}
use go2nix.Resolver.Config.{Config, Tools, absolute}
use go2nix.Resolver.Package.{Package, Overrides}
use go2nix.Resolver.Steps.{stage_local_sources, build_packages, register_package_derivations}
use go2nix.Resolver.Staged.{stage_local_sources-Staged}
use go2nix.Resolver.Built.{IsDrvPath, NamesPaths, Marshals, Sourced}
use go2nix.Scripts.{compile_script}
use go2nix.Resolver.Closure.Exact.{transitive_closure_exact}
use go2nix.Resolver.Parts.{is_main, main_packages}
use go2nix.Resolver.Final.{build_final_drv-Finishes}
use go2nix.Resolver.Run.{resolve_packages}
use go2nix.Resolver.Registered.{Accepts, all_done}

-- A node of finished keys is the node of one of them.
main_packages-Memᴰ :
    (pkg : Package) (pkgs : List Package) → Memᴰ pkg (main_packages pkgs) → Memᴰ pkg pkgs
unfolding main_packages
main_packages-Memᴰ pkg [] m = m
main_packages-Memᴰ pkg (p ∷ pkgs) m = elim (Bool-cases (is_main p)) [
  | inl e ↦ elim (Memᴰ.cases_cons (rw e at m)) [
    | inl q ↦ Memᴰ.head q
    | inr t ↦ Memᴰ.tail (main_packages-Memᴰ pkg pkgs t)
  ]
  | inr e ↦ Memᴰ.tail (main_packages-Memᴰ pkg pkgs (rw e at m))
]

module _ (tools : Tools) (show : Text → Text → Text) (rel : Text → Text → Option Text)
    (fod_paths : Dict StorePath) (src_root : Text) where
  graph_sources :
      (pkgs : List Pkg) (graph : Dict Package)
      → build_package_graph show rel pkgs fod_paths src_root ≡ ok graph
      → (k : Text) (pkg : Package) → lookup k graph ≡ some pkg
      → (pkg.local ≡ true)
        ⊎ ((pkg.local ≡ false) × ((source : StorePath) × (pkg.fod_path ≡ some source)))
  unfolding build_package_graph
  graph_sources pkgs graph h k pkg found =
      elim (build_package_graph_cases show rel fod_paths src_root pkgs) [
        | inl (graph', h', _, comes) ↦
            let same : graph ≡ graph' = ok_cancel (sym h ∙ h') in
            let (_, _, _, its) = comes k pkg (ap (lookup k) (sym same) ∙ found) in
            elim its [
              | inl (_, e) ↦ inl (ap (λ x. x.local) e)
              | inr (m, path, _, _, e) ↦ inr (ap (λ x. x.local) e, (path, ap (λ x. x.fod_path) e))
            ]
        | inr (_, _, h', _, _) ↦ cc (h, h')
      ]

  -- Where every derivation has a path that is named after it and every manifest has its JSON, and a
  -- graph is built and sorted, and the sources of its local packages are staged, every package gets
  -- a derivation, and a store that adds a derivation under its path if it has the derivations that
  -- this one needs, and keeps what it has, takes all of them in that order and then has the
  -- derivation of every package.
  pub resolve_registers :
      {Store : Type 0} (add : Derivation → Store → Option (StorePath × Store))
      (Holds : Store → Text → Type 0) (store_add : Text → Text → List Text → Option StorePath)
      (cfg : Config) (overrides : Overrides) (script : Text) (pkgs : List Pkg)
      (graph : Dict Package) (sorted : List Package) (n : ℕ) (staged : Dict StorePath)
      (start : Store)
      → NamesPaths tools
      → Marshals tools
      → Accepts tools add Holds
      → build_package_graph show rel pkgs fod_paths src_root ≡ ok graph
      → topo_sort graph ≡ ok sorted
      → stage_local_sources tools.sha256 store_add sorted ≡ ok (n, staged)
      → (drvs : List Derivation) × (paths : Dict StorePath) × (store : Store) × (build_packages
            tools cfg graph staged overrides script sorted []
          ≡ ok (drvs, paths))
        × (register_package_derivations tools add drvs start ≡ ok store)
        × ((k : Text) (pkg : Package)
            → lookup k graph ≡ some pkg
            → (p : StorePath) × (lookup pkg.import_path paths ≡ some p) × IsDrvPath p)
        × ((j : Text) (p : StorePath) → lookup j paths ≡ some p → Holds store (absolute tools p))
  unfolding topo_sort
  resolve_registers add Holds store_add cfg overrides script pkgs graph sorted n staged start
        has_path marshals accepts built order stage =
      let (done, q, closed, whole) =
        toposort_ordered graph (imports_in graph) (suc (length (graph_keys graph))) sorted order in
      let sourced = λ (k : Text) (pkg : Package) (found : lookup k graph ≡ some pkg).
        source_of pkg (graph_sources pkgs graph built k pkg found) (
          stage_local_sources-Staged tools.sha256 store_add sorted n staged stage pkg (
            subst (Memᴰ pkg) (sym q)
              (collect-Memᴰ graph done k pkg (whole k (keys-Memᴰ k graph found)) found))) in
      let end =
        all_done tools add Holds cfg graph staged overrides script start accepts has_path marshals
          sourced done closed in
      (
        end.drvs,
        end.paths,
        end.store,
        subst
            (λ l.
              build_packages tools cfg graph staged overrides script l []
              ≡ ok (end.drvs, end.paths))
            (sym q) end.built,
        end.registered,
        λ k pkg found. end.has k pkg (whole k (keys-Memᴰ k graph found)) found,
        end.held,
      )
    where
      source_of :
          (pkg : Package)
          → ((pkg.local ≡ true)
              ⊎ ((pkg.local ≡ false) × ((source : StorePath) × (pkg.fod_path ≡ some source))))
          → (pkg.local ≡ true
              → (source : StorePath) × (lookup pkg.import_path staged ≡ some source))
          → Sourced tools staged pkg
      source_of pkg (inl here) staged_at = inl (here, staged_at here)
      source_of pkg (inr there) staged_at = inr there

  -- Of a graph that is built from listed packages.
  pub graph_matches :
      (pkgs : List Pkg) (graph : Dict Package)
      → build_package_graph show rel pkgs fod_paths src_root ≡ ok graph
      → (k : Text) (pkg : Package) → lookup k graph ≡ some pkg
      → pkg.import_path ≡ k
  unfolding build_package_graph
  graph_matches pkgs graph h k pkg found =
      elim (build_package_graph_cases show rel fod_paths src_root pkgs) [
        | inl (graph', h', _, comes) ↦
            let same : graph ≡ graph' = ok_cancel (sym h ∙ h') in
            let (listed, _, named, its) = comes k pkg (ap (lookup k) (sym same) ∙ found) in
            elim its [
              | inl (_, e) ↦ ap (λ x. x.import_path) e ∙ named
              | inr (m, path, _, _, e) ↦ ap (λ x. x.import_path) e ∙ named
            ]
        | inr (_, _, h', _, _) ↦ cc (h, h')
      ]

  sorted_known :
      (pkgs : List Pkg) (graph : Dict Package) (sorted : List Package)
      → build_package_graph show rel pkgs fod_paths src_root ≡ ok graph
      → topo_sort graph ≡ ok sorted
      → (pkg : Package) → Memᴰ pkg sorted
      → lookup pkg.import_path graph ≡ some pkg
  unfolding topo_sort
  sorted_known pkgs graph sorted built order pkg m =
      let (done, q, _, _) =
        toposort_ordered graph (imports_in graph) (suc (length (graph_keys graph))) sorted order in
      let (k, found) = Memᴰ-collect graph done pkg (subst (Memᴰ pkg) q m) in
      subst (λ x. lookup x graph ≡ some pkg) (sym (graph_matches pkgs graph built k pkg found))
        found

  -- Where every derivation has a path that is named after it and every manifest has its JSON, from
  -- listed packages whose graph is built and sorted, and whose local sources are staged, with a
  -- main package among them and the files of the standard library listed, the resolver comes to a
  -- final derivation without an error, and a store that adds a derivation under its path if it has
  -- the derivations that this one needs, and keeps what it has, then has the final one.
  pub resolve_packages_finishes :
      {Store : Type 0} (add : Derivation → Store → Option (StorePath × Store))
      (Holds : Store → Text → Type 0) (store_add : Text → Text → List Text → Option StorePath)
      (cfg : Config) (overrides : Overrides) (pkgs : List Pkg) (graph : Dict Package)
      (sorted : List Package) (n : ℕ) (staged : Dict StorePath) (start : Store)
      → NamesPaths tools
      → Marshals tools
      → Accepts tools add Holds
      → tools.stdlib_files ≢ none
      → build_package_graph show rel pkgs fod_paths src_root ≡ ok graph
      → topo_sort graph ≡ ok sorted
      → stage_local_sources tools.sha256 store_add sorted ≡ ok (n, staged)
      → is_empty (main_packages sorted) ≡ false
      → (final : StorePath) × (store : Store) × (resolve_packages tools show rel add store_add cfg
            overrides fod_paths src_root pkgs start
          ≡ ok (final, store))
        × Holds store (absolute tools final)
  unfolding resolve_packages
  resolve_packages_finishes add Holds store_add cfg overrides pkgs graph sorted n staged start
        has_path marshals accepts stdlib built order stage some_main =
      let (drvs, paths, store, b, r, has, held) =
        resolve_registers add Holds store_add cfg overrides (compile_script cfg.go2nix_bin) pkgs
          graph sorted n staged start has_path marshals accepts built order stage in
      let matches = graph_matches pkgs graph built in
      let known = λ (pkg : Package) (m : Memᴰ pkg (main_packages sorted)).
        sorted_known pkgs graph sorted built order pkg (main_packages-Memᴰ pkg sorted m) in
      let (final, finals, end, f, g, here) =
        build_final_drv-Finishes tools add Holds accepts has_path cfg graph paths sorted store held
          (λ pkg m. has pkg.import_path pkg (known pkg m))
          (λ pkg dep m i.
            has dep.import_path dep
              (((transitive_closure_exact graph matches pkg (known pkg m)).0 dep).0 i).0)
          stdlib some_main in
      (final, end, rw (built, order, stage, b, r, f, g) refl, here)
