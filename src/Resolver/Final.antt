-- ===== src/Resolver/Final.antt =====
-- The final derivations, and a store that takes them.
use go2nix.Base.{
  ℕ, List, [], ◌∷◌, ◌++◌, ◌≡◌, ◌≢◌, refl, sym, subst, inl, inr, ◌⊎◌, ⊎_elim, false, Option, none,
  some, Option-cases, Text, codes, sort, length, Dict, lookup, keys, keys-insert, Memᴰ, Result, ok,
  ok_cancel,
}
use mathlib.Core.List.Memᴰ
use go2nix.NixDrv.Placeholder.{StorePath, render}
use go2nix.NixDrv.Derivation.{
  Derivation, new_derivation, add_arg, set_env, add_ca_output, add_input_drv, add_input_src,
}
use go2nix.Graph.Packages.{is_empty}
use go2nix.Resolver.Config.{Config, Tools, ResolveError, absolute}
use go2nix.Resolver.Package.{Package}
use go2nix.Resolver.Steps.{register_derivations}
use go2nix.Resolver.Kept.{ca_out}
use go2nix.Resolver.Built.{NamesPaths, placeholder_of_drv, path_of_ca}
use go2nix.Resolver.Registered.{Accepts}
use go2nix.Resolver.Closure.{transitive_closure}
use go2nix.Resolver.Linked.{HasDrv, build_link_drv_total}
use go2nix.Resolver.Link.{
  build_links, collected, add_outs, collector, build_collector_drv, finish_final, build_mains,
  build_final_drv,
}
use go2nix.Resolver.Parts.{main_packages, env_of, collect_stdlib_imports, archives}

collect_stdlib_imports_total :
    (files : Option (List Text))
    → files ≢ none
    → (imports : List Text) × (collect_stdlib_imports files ≡ ok imports)
unfolding collect_stdlib_imports
collect_stdlib_imports_total none h = absurd (h refl)
collect_stdlib_imports_total (some files) h = (sort (archives files), refl)

module _ (tools : Tools) {Store : Type 0} (add : Derivation → Store → Option (StorePath × Store))
    (Holds : Store → Text → Type 0) (accepts : Accepts tools add Holds)
    (has_path : NamesPaths tools) where
  abbrev HoldsAll : Store → Dict StorePath → Type 0
  HoldsAll s drv_paths =
      (j : Text) (p : StorePath) → lookup j drv_paths ≡ some p → Holds s (absolute tools p)

  snoc-added :
      (drvs : List Derivation) (d : Derivation) (s t u : Store) (p : StorePath)
      → register_derivations tools add drvs s ≡ ok t
      → add d t ≡ some (p, u)
      → register_derivations tools add (drvs ++ d ∷ []) s ≡ ok u
  unfolding register_derivations
  snoc-added [] d s t u p h k =
      let same : s ≡ t = ok_cancel h in rw (same, k, register_derivations) refl
  snoc-added (e ∷ drvs) d s t u p h k = elim (Option-cases (add e s)) [
    | inl n ↦ cc (rw (n, register_derivations) at h)
    | inr ((q, v), n) ↦
        rw (n, register_derivations)
          (snoc-added drvs d v t u p (rw (n, register_derivations) at h) k)
  ]

  -- The derivations of links, and a store that has taken them.
  record LinksDone (start : Store)
      (built : Result ResolveError (List StorePath × List Text × List Derivation)) : Type 0 where
    paths : List StorePath
    placeholders : List Text
    drvs : List Derivation
    store : Store
    links : built ≡ ok (paths, placeholders, drvs)
    registered : register_derivations tools add drvs start ≡ ok store
    held : (p : StorePath) → Memᴰ p paths → Holds store (absolute tools p)
    keeps : (k : Text) → Holds start k → Holds store k

  module _ (cfg : Config) (graph : Dict Package) (drv_paths : Dict StorePath)
      (sorted : List Package) (mains : ℕ) (stdlib_imports : List Text) (goroot : Text) where
    build_links_done :
        (main_pkgs : List Package) (start : Store)
        → HoldsAll start drv_paths
        → ((pkg : Package) → Memᴰ pkg main_pkgs → HasDrv tools drv_paths pkg)
        → ((pkg dep : Package)
            → Memᴰ pkg main_pkgs
            → Memᴰ dep (transitive_closure graph pkg)
            → HasDrv tools drv_paths dep)
        → LinksDone start
            (build_links tools drv_paths cfg graph sorted mains stdlib_imports goroot main_pkgs)
    unfolding build_links register_derivations
    build_links_done [] start holds has needs = record {
      paths = [];
      placeholders = [];
      drvs = [];
      store = start;
      links = refl;
      registered = refl;
      held = λ p m. absurd (Memᴰ.not-nil m);
      keeps = λ k h. h;
    }
    build_links_done (pkg ∷ pkgs) start holds has needs =
        let (drv, p, q, b) =
          build_link_drv_total tools drv_paths graph has_path cfg sorted pkg mains stdlib_imports
            goroot (has pkg (Memᴰ.head refl)) (λ dep m. needs pkg dep (Memᴰ.head refl) m) in
        let (s, added, here, keeps) =
          accepts drv start p b.path (λ k i.
            let (j, r, at, e) = b.inputs k i in subst (Holds start) (sym e) (holds j r at)) in
        let (hash, h) = placeholder_of_drv tools graph drv_paths pkg.import_path p b.named in
        let rest =
          build_links_done pkgs s (λ j r at. keeps _ (holds j r at)) (λ x m. has x (Memᴰ.tail m))
            (λ x dep m i. needs x dep (Memᴰ.tail m) i) in
        record {
          paths = p ∷ rest.paths;
          placeholders = render tools.sha256 tools.nixbase32 hash ∷ rest.placeholders;
          drvs = drv ∷ rest.drvs;
          store = rest.store;
          links = rw (q, h, rest.links) refl;
          registered = rw (added, register_derivations) rest.registered;
          held = λ r m. elim (Memᴰ.cases_cons m) [
            | inl e ↦ subst (λ x. Holds rest.store (absolute tools x)) (sym e) (rest.keeps _ here)
            | inr t ↦ rest.held r t
          ];
          keeps = λ k i. rest.keeps k (keeps k i);
        }

  -- The inputs of the collector are the links.
  add_outs_inputs :
      (paths : List StorePath) (d : Derivation)
      → ((add_outs tools paths d).outputs ≡ d.outputs)
        × ((k : Text)
            → Memᴰ k (keys (add_outs tools paths d).input_drvs)
            → Memᴰ k (keys d.input_drvs)
              ⊎ ((p : StorePath) × Memᴰ p paths × (k ≡ absolute tools p)))
  unfolding add_input_drv
  add_outs_inputs [] d = (refl, λ k m. inl m)
  add_outs_inputs (p ∷ ps) d =
      let (outputs, inputs) =
        add_outs_inputs ps (add_input_drv (absolute tools p) (codes "out" ∷ []) d) in
      (
        outputs,
        λ k m. elim (inputs k m) [
          | inr (q, n, e) ↦ inr (q, Memᴰ.tail n, e)
          | inl old ↦
              ⊎_elim (λ e. inr (p, Memᴰ.head refl, e)) inl
                (keys-insert k (absolute tools p) _ d.input_drvs old)
        ],
      )

  collector_io :
      (cfg : Config) (paths : List StorePath) (placeholders : List Text)
      → ((collector tools cfg paths placeholders).outputs ≡ (codes "out", ca_out) ∷ [])
        × ((k : Text)
            → Memᴰ k (keys (collector tools cfg paths placeholders).input_drvs)
            → (p : StorePath) × Memᴰ p paths × (k ≡ absolute tools p))
  unfolding collector new_derivation add_arg set_env add_ca_output add_input_src
  collector_io cfg paths placeholders =
      let (outputs, inputs) = add_outs_inputs paths _ in
      (
        outputs,
        λ k m. elim (inputs k m) [ inl old ↦ absurd (Memᴰ.not-nil old) | inr found ↦ found ],
      )

  -- What ends with a derivation that the store has.
  abbrev pub Finishes : Store → Result ResolveError (StorePath × List Derivation) → Type 0
  Finishes start built =
      (final : StorePath) × (drvs : List Derivation) × (store : Store) × (built ≡ ok (final, drvs))
      × (register_derivations tools add drvs start ≡ ok store)
      × Holds store (absolute tools final)

  collect-Finishes :
      (cfg : Config) (paths : List StorePath) (placeholders : List Text) (drvs : List Derivation)
      (start store : Store)
      → register_derivations tools add drvs start ≡ ok store
      → ((p : StorePath) → Memᴰ p paths → Holds store (absolute tools p))
      → Finishes start (collected tools drvs (build_collector_drv tools cfg paths placeholders))
  unfolding build_collector_drv
  collect-Finishes cfg paths placeholders drvs start store registered held =
      let drv = collector tools cfg paths placeholders in
      let (outputs, inputs) = collector_io cfg paths placeholders in
      let (p, path, _) = path_of_ca tools has_path drv outputs in
      let (s, added, here, _) =
        accepts drv store p path
          (λ k m. let (q, n, e) = inputs k m in subst (Holds store) (sym e) (held q n)) in
      (
        p,
        drvs ++ drv ∷ [],
        s,
        rw (path drv.name) refl,
        snoc-added drvs drv start store s p registered added,
        here,
      )

  finish_final-Finishes :
      (cfg : Config) (paths : List StorePath) (placeholders : List Text) (drvs : List Derivation)
      (start store : Store)
      → register_derivations tools add drvs start ≡ ok store
      → ((p : StorePath) → Memᴰ p paths → Holds store (absolute tools p))
      → Finishes start (finish_final tools cfg paths placeholders drvs)
  unfolding finish_final
  finish_final-Finishes cfg [] placeholders drvs start store r h =
      collect-Finishes cfg [] placeholders drvs start store r h
  finish_final-Finishes cfg (p ∷ []) placeholders drvs start store r h =
      (p, drvs, store, refl, r, h p (Memᴰ.head refl))
  finish_final-Finishes cfg (p ∷ q ∷ paths) placeholders drvs start store r h =
      collect-Finishes cfg (p ∷ q ∷ paths) placeholders drvs start store r h

  pub build_final_drv-Finishes :
      (cfg : Config) (graph : Dict Package) (drv_paths : Dict StorePath) (sorted : List Package)
      (start : Store)
      → HoldsAll start drv_paths
      → ((pkg : Package) → Memᴰ pkg (main_packages sorted) → HasDrv tools drv_paths pkg)
      → ((pkg dep : Package)
          → Memᴰ pkg (main_packages sorted)
          → Memᴰ dep (transitive_closure graph pkg)
          → HasDrv tools drv_paths dep)
      → tools.stdlib_files ≢ none
      → is_empty (main_packages sorted) ≡ false
      → Finishes start (build_final_drv tools drv_paths cfg graph sorted)
  unfolding build_final_drv build_mains
  build_final_drv-Finishes cfg graph drv_paths sorted start holds has needs stdlib some_main =
      let mains = main_packages sorted in
      let (imports, q) = collect_stdlib_imports_total tools.stdlib_files stdlib in
      let done =
        build_links_done cfg graph drv_paths sorted (length mains) imports
          (env_of cfg (codes "GOROOT")) mains start holds has needs in
      rw (some_main, q, done.links)
        (finish_final-Finishes cfg done.paths done.placeholders done.drvs start done.store
          done.registered done.held)
