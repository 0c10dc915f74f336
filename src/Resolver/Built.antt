-- ===== src/Resolver/Built.antt =====
-- A package whose source and whose dependencies are there has a derivation.
use go2nix.Base.{
  ℕ, List, [], ◌∷◌, ◌++◌, ◌≡◌, refl, ap, ◌∙◌, subst, inl, inr, ◌⊎◌, ⊎_elim, true, false, none, some,
  Text, codes, text_eq, sort, Dict, lookup, keys, keys-insert, Memᴰ, ok, if◌then◌else◌,
}
use mathlib.Core.List.Memᴰ
use go2nix.Manifest.{CompileManifest}
use go2nix.NixDrv.Placeholder.{StorePath, ca_output}
use go2nix.NixDrv.Placeholder.Distinguish.{drv_name_iff}
use go2nix.NixDrv.Derivation.{Derivation, set_env, add_input_drv}
use go2nix.NixDrv.Aterm.{
  GoDerivation, GoOutput, sorted_outputs, convert_outputs, to_go_nix_derivation, is_fod, fill_fod,
  drv_path,
}
use go2nix.Resolver.Config.{Config, Tools, join, absolute}
use go2nix.Resolver.Package.{
  Package, Overrides, marshaled, setup_pkg_overrides, setup_pkg_source, set_source, entry_at,
  stdlib_entry, placeholder_of, import_entry, import_entries, build_importcfg, begin_package,
  end_package, add_pgo, compile_manifest, path_of, build_package_drv,
}
use go2nix.Resolver.Kept.{
  Kept, Kept_after, set_env-Kept, add_input_src-Kept, add_pgo-Kept, ca_out, begin_package_fresh,
  setup_pkg_overrides-Kept, end_package-Kept,
}

-- The path of a derivation: its name ends in .drv.
abbrev pub IsDrvPath : StorePath → Type 0
IsDrvPath p = (name : Text) × (p.name ≡ name ++ codes ".drv")

-- The output of a derivation as go-nix has it.
abbrev go_ca_out : GoOutput
go_ca_out = record { path = []; hash_algorithm = codes "r:sha256"; hash = [] }

module _ (tools : Tools) where
  -- What go-nix promises: a derivation has a path, which is named after it.
  abbrev pub NamesPaths : Type 0
  NamesPaths =
      (g : GoDerivation)
      → (p : StorePath) × (tools.go_drv_path g ≡ some p) × (p.name ≡ g.name ++ codes ".drv")

  abbrev pub Marshals : Type 0
  Marshals = (m : CompileManifest) → (text : Text) × (tools.marshal_manifest m ≡ some text)

  -- A path that DrvPath gives, whatever the error would name.
  abbrev pub HasPath : Derivation → StorePath → Type 0
  HasPath d p = (name : Text) → path_of tools name d ≡ ok p

  pub path_of_ca :
      NamesPaths
      → (d : Derivation) → d.outputs ≡ (codes "out", ca_out) ∷ []
      → (p : StorePath) × HasPath d p × IsDrvPath p
  unfolding path_of drv_path to_go_nix_derivation convert_outputs fill_fod is_fod
  path_of_ca has_path d e =
      let converted : convert_outputs tools.parse_any d.outputs
          ≡ ok ((codes "out", go_ca_out) ∷ []) =
        ap (convert_outputs tools.parse_any) e in
      let g : GoDerivation = record {
        name = d.name;
        outputs = (codes "out", go_ca_out) ∷ [];
        input_sources = sort (keys d.input_srcs);
        input_derivations = sorted_outputs d.input_drvs;
        platform = d.system;
        builder = d.builder;
        arguments = d.args;
        env = d.env;
      } in
      let (p, found, named) = has_path g in (p, λ name. rw (converted, found) refl, (d.name, named))

  -- A derivation's path, as a key of the derivations that another one needs.
  abbrev pub PathIn : Dict StorePath → Text → Type 0
  PathIn drv_paths k =
      (j : Text) × (p : StorePath) × (lookup j drv_paths ≡ some p) × (k ≡ absolute tools p)

  module _ (graph : Dict Package) (drv_paths : Dict StorePath) where
    -- An import from outside the graph, or of a package that has a derivation.
    abbrev pub Available : Text → Type 0
    Available imp =
        (lookup imp graph ≡ none)
        ⊎ ((dep : Package) × (p : StorePath) × (lookup imp graph ≡ some dep)
            × (lookup dep.import_path drv_paths ≡ some p)
            × IsDrvPath p)

    -- What adding inputs may change: the inputs that come in are paths of the packages.
    pub record Linked (d e : Derivation) : Type 0 where
      pub outputs : e.outputs ≡ d.outputs
      pub inputs :
          (k : Text) → Memᴰ k (keys e.input_drvs) → Memᴰ k (keys d.input_drvs) ⊎ PathIn drv_paths k

    pub Linked-after : {d e f : Derivation} → Linked e f → Linked d e → Linked d f
    Linked-after h k = record {
      outputs = h.outputs ∙ k.outputs;
      inputs = λ x m. ⊎_elim (k.inputs x) inr (h.inputs x m);
    }

    pub add_input_drv-Linked :
        (j : Text) (p : StorePath) (outputs : List Text) (d : Derivation)
        → lookup j drv_paths ≡ some p
        → Linked d (add_input_drv (absolute tools p) outputs d)
    unfolding add_input_drv
    add_input_drv-Linked j p outputs d h = record {
      outputs = refl;
      inputs = λ k m.
          ⊎_elim (λ e. inr (j, p, h, e)) inl (keys-insert k (absolute tools p) _ d.input_drvs m);
    }

    pub placeholder_of_drv :
        (imp : Text) (p : StorePath)
        → IsDrvPath p
        → (hash : List ℕ) × (placeholder_of tools imp p ≡ ok hash)
    unfolding placeholder_of ca_output
    placeholder_of_drv imp p (name, named) = rw ((drv_name_iff p name).1 named) (_, refl)

    import_entry_total :
        (cfg : Config) (imp : Text) (d : Derivation)
        → Available imp
        → (entry : Text) × (e : Derivation) × (import_entry tools graph drv_paths cfg imp d
            ≡ ok (entry, e))
          × Linked d e
    unfolding import_entry
    import_entry_total cfg imp d (inl outside) = (
      stdlib_entry tools cfg imp,
      d,
      rw (outside, import_entry) refl,
      record { outputs = refl; inputs = λ k m. inl m },
    )
    import_entry_total cfg imp d (inr (dep, p, found, path, named)) =
        let (hash, q) = placeholder_of_drv imp p named in
        (
          entry_at tools imp hash,
          add_input_drv (absolute tools p) (codes "out" ∷ []) d,
          rw (found, path, q, import_entry) refl,
          add_input_drv-Linked dep.import_path p _ d path,
        )

    import_entries_total :
        (cfg : Config) (imports : List Text) (d : Derivation)
        → ((imp : Text) → Memᴰ imp imports → Available imp)
        → (entries : List Text) × (e : Derivation) × (import_entries tools graph drv_paths cfg
              imports d
            ≡ ok (entries, e))
          × Linked d e
    unfolding import_entries
    import_entries_total cfg [] d h =
        ([], d, refl, record { outputs = refl; inputs = λ k m. inl m })
    import_entries_total cfg (imp ∷ imports) d h =
        let (entry, e, q, l) = import_entry_total cfg imp d (h imp (Memᴰ.head refl)) in
        let (entries, f, q', l') = import_entries_total cfg imports e (λ i m. h i (Memᴰ.tail m)) in
        (entry ∷ entries, f, rw (q, q') refl, Linked-after l' l)

  -- A package whose source is in the store.
  abbrev pub Sourced : Dict StorePath → Package → Type 0
  Sourced staged pkg =
      ((pkg.local ≡ true) × ((source : StorePath) × (lookup pkg.import_path staged ≡ some source)))
      ⊎ ((pkg.local ≡ false) × ((source : StorePath) × (pkg.fod_path ≡ some source)))

  set_source-Kept :
      (source : StorePath) (rel_dir : Text) (d : Derivation)
      → Kept d (set_source tools source rel_dir d)
  set_source-Kept source rel_dir d = Kept_after (add_input_src-Kept (absolute tools source) _) (
      Kept_after (set_env-Kept (codes "relDir") rel_dir _)
        (set_env-Kept (codes "modSrc") (absolute tools source) d))

  setup_pkg_source_total :
      (staged : Dict StorePath) (pkg : Package) (d : Derivation)
      → Sourced staged pkg
      → (e : Derivation) × (setup_pkg_source tools staged pkg d ≡ ok e) × Kept d e
  unfolding setup_pkg_source
  setup_pkg_source_total staged pkg d (inl (here, (source, q))) =
      (set_source tools source (codes ".") d, rw (here, q) refl, set_source-Kept source _ d)
  setup_pkg_source_total staged pkg d (inr (there, (source, q))) =
      let rel_dir = if text_eq pkg.subdir [] then codes "." else pkg.subdir in
      (set_source tools source rel_dir d, rw (there, q) refl, set_source-Kept source rel_dir d)

  -- The derivation of a package: it has a path, and needs no derivation but those of packages.
  pub record IsBuilt (drv_paths : Dict StorePath) (drv : Derivation) (p : StorePath) : Type 0 where
    pub path : HasPath drv p
    pub named : IsDrvPath p
    pub inputs : (k : Text) → Memᴰ k (keys drv.input_drvs) → PathIn drv_paths k

  marshaled_total :
      Marshals
      → (name : Text) (m : CompileManifest) → (text : Text) × (marshaled tools name m ≡ ok text)
  unfolding marshaled
  marshaled_total marshals name m = let (text, q) = marshals m in (text, rw (q, marshaled) refl)

  build_importcfg_total :
      (graph : Dict Package) (drv_paths : Dict StorePath) (cfg : Config) (pkg : Package)
      (d : Derivation)
      → ((imp : Text) → Memᴰ imp pkg.imports → Available graph drv_paths imp)
      → (e : Derivation) × (build_importcfg tools graph drv_paths cfg pkg d ≡ ok e)
        × Linked graph drv_paths d e
  unfolding build_importcfg
  build_importcfg_total graph drv_paths cfg pkg d available =
      let (entries, e, q, l) = import_entries_total graph drv_paths cfg pkg.imports d available in
      let kept = set_env-Kept (codes "importcfg_entries") (join entries (codes "\n")) e in
      (
        set_env (codes "importcfg_entries") (join entries (codes "\n")) e,
        rw q refl,
        Linked-after graph drv_paths
            (record {
              outputs = kept.outputs;
              inputs = λ k m. inl (subst (λ x. Memᴰ k (keys x)) kept.input_drvs m);
            })
            l,
      )

  pub build_package_drv_total :
      NamesPaths
      → Marshals
      → (cfg : Config) (graph : Dict Package) (drv_paths staged : Dict StorePath)
        (overrides : Overrides) (script : Text) (pkg : Package)
      → Sourced staged pkg
      → ((imp : Text) → Memᴰ imp pkg.imports → Available graph drv_paths imp)
      → (drv : Derivation) × (p : StorePath) × (build_package_drv tools cfg graph drv_paths staged
            overrides script pkg
          ≡ ok (drv, p))
        × IsBuilt drv_paths drv p
  unfolding build_package_drv
  build_package_drv_total has_path marshals cfg graph drv_paths staged overrides script pkg sourced
        available =
      let begun = begin_package tools cfg pkg script in
      let (fresh, none_yet) = begin_package_fresh tools cfg pkg script in
      let kept = setup_pkg_overrides-Kept tools cfg pkg overrides begun in
      let (d, q, kept') =
        setup_pkg_source_total staged pkg (setup_pkg_overrides tools cfg pkg overrides begun).0
          sourced in
      let inputs = (setup_pkg_overrides tools cfg pkg overrides begun).1 in
      let (e, q', linked) = build_importcfg_total graph drv_paths cfg pkg d available in
      let (text, m) = marshaled_total marshals pkg.import_path (compile_manifest cfg pkg) in
      let drv = end_package tools cfg pkg text inputs (add_pgo cfg.pgo_profile e) in
      let last : Kept e drv =
        Kept_after (end_package-Kept tools cfg pkg text inputs _)
          (add_pgo-Kept cfg.pgo_profile e) in
      let (p, path, named) =
        path_of_ca has_path drv
          (last.outputs ∙ linked.outputs ∙ kept'.outputs ∙ kept.outputs ∙ fresh) in
      let before : d.input_drvs ≡ [] = kept'.input_drvs ∙ kept.input_drvs ∙ none_yet in
      (
        drv,
        p,
        rw (q, q', m, path pkg.import_path) refl,
        record {
          path = path;
          named = named;
          inputs = λ k i. elim (linked.inputs k (subst (λ x. Memᴰ k (keys x)) last.input_drvs i)) [
            | inl old ↦ absurd (Memᴰ.not-nil (subst (λ x. Memᴰ k (keys x)) before old))
            | inr found ↦ found
          ];
        },
      )
