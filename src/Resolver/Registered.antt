-- ===== src/Resolver/Registered.antt =====
-- The packages of a graph, in the order of the sort, have derivations that Nix accepts.
use go2nix.Base.{
  List, [], ◌∷◌, ◌++◌, ◌≡◌, refl, sym, ap, subst, ◌∙◌, append-nil, inl, inr, Bool-cases, Option,
  none, some, Option-cases, Text, text_eq, text_eq_refl, text_eq_iff, ◌⊎◌, Dict, lookup, insert,
  lookup-insert, keys, Memᴰ, ok, ok_of_bind, ok_cancel, if◌then◌else◌,
}
use mathlib.Core.List.Memᴰ
use go2nix.Toposort.{option_list}
use go2nix.Toposort.Order.{IsClosed, collect}
use go2nix.Graph.{imports_or_none, imports_in}
use go2nix.NixDrv.Placeholder.{StorePath}
use go2nix.NixDrv.Derivation.{Derivation}
use go2nix.Resolver.Config.{Config, Tools, absolute}
use go2nix.Resolver.Package.{Package, Overrides, build_package_drv}
use go2nix.Resolver.Steps.{build_packages, register_package, register_package_derivations}
use go2nix.Resolver.Built.{
  IsDrvPath, NamesPaths, Marshals, HasPath, Available, Sourced, build_package_drv_total,
}

some_cancel : {A : Type 0} {x y : A} → ◌≡◌ {A = Option A} (some x) (some y) → x ≡ y
some_cancel h = cc

insert_cases :
    (paths : Dict StorePath) (k j : Text) (p p' : StorePath)
    → lookup j (insert k p paths) ≡ some p'
    → (p' ≡ p) ⊎ (lookup j paths ≡ some p')
insert_cases paths k j p p' h =
    let at : (if text_eq k j then some p else lookup j paths) ≡ some p' =
      sym (lookup-insert paths k p j) ∙ h in
    elim (Bool-cases (text_eq k j)) [
      | inl e ↦ inl (sym (some_cancel (rw e at at)))
      | inr e ↦ inr (rw e at at)
    ]

insert_has :
    (paths : Dict StorePath) (k j : Text) (p : StorePath)
    → IsDrvPath p
    → (k ≡ j) ⊎ ((p' : StorePath) × (lookup j paths ≡ some p') × IsDrvPath p')
    → (p' : StorePath) × (lookup j (insert k p paths) ≡ some p') × IsDrvPath p'
insert_has paths k j p named (inl e) =
    (p, lookup-insert paths k p j ∙ rw ((text_eq_iff k j).1 e) refl, named)
insert_has paths k j p named (inr (p', h, named')) = elim (Bool-cases (text_eq k j)) [
  | inl e ↦ (p, lookup-insert paths k p j ∙ rw e refl, named)
  | inr e ↦ (p', lookup-insert paths k p j ∙ rw e h, named')
]

module _ (tools : Tools) {Store : Type 0} (add : Derivation → Store → Option (StorePath × Store))
    (Holds : Store → Text → Type 0) where
  -- What Nix promises: it adds a derivation under its path if it has the derivations that this one
  -- needs, and keeps what it has.
  abbrev pub Accepts : Type 0
  Accepts =
      (d : Derivation) (s : Store) (p : StorePath)
      → HasPath tools d p
      → ((k : Text) → Memᴰ k (keys d.input_drvs) → Holds s k)
      → (s' : Store) × (add d s ≡ some (p, s'))
        × Holds s' (absolute tools p)
        × ((k : Text) → Holds s k → Holds s' k)

  register_package_added :
      (d : Derivation) (s s' : Store) (p : StorePath)
      → HasPath tools d p
      → add d s ≡ some (p, s')
      → register_package tools add d s ≡ ok s'
  unfolding register_package
  register_package_added d s s' p path added =
      rw (added, register_package, path d.name, text_eq_refl (absolute tools p)) refl

  register_none : (s : Store) → register_package_derivations tools add [] s ≡ ok s
  unfolding register_package_derivations
  register_none s = refl

  register-snoc :
      (drvs : List Derivation) (d : Derivation) (s t u : Store)
      → register_package_derivations tools add drvs s ≡ ok t
      → register_package tools add d t ≡ ok u
      → register_package_derivations tools add (drvs ++ d ∷ []) s ≡ ok u
  unfolding register_package_derivations
  register-snoc [] d s t u h k = let same : s ≡ t = ok_cancel h in rw (same, k) refl
  register-snoc (e ∷ drvs) d s t u h k =
      let record { value = v; came = c; went = w } =
        ok_of_bind _ (register_package tools add e s) h in
      rw c (register-snoc drvs d v t u w k)

  module _ (cfg : Config) (graph : Dict Package) (staged : Dict StorePath) (overrides : Overrides)
      (script : Text) where
    build-snoc :
        (pkgs : List Package) (pkg : Package) (before paths : Dict StorePath)
        (drvs : List Derivation) (drv : Derivation) (p : StorePath)
        → build_packages tools cfg graph staged overrides script pkgs before ≡ ok (drvs, paths)
        → build_package_drv tools cfg graph paths staged overrides script pkg ≡ ok (drv, p)
        → build_packages tools cfg graph staged overrides script (pkgs ++ pkg ∷ []) before
          ≡ ok (drvs ++ drv ∷ [], insert pkg.import_path p paths)
    unfolding build_packages
    build-snoc [] pkg before paths drvs drv p h k =
        let no_drvs : drvs ≡ [] = sym (ap (λ x. x.0) (ok_cancel h)) in
        let same : before ≡ paths = ap (λ x. x.1) (ok_cancel h) in rw (same, k, no_drvs) refl
    build-snoc (q ∷ pkgs) pkg before paths drvs drv p h k =
        let record { value = (e, r); came = c; went = w } =
          ok_of_bind _ (build_package_drv tools cfg graph before staged overrides script q) h in
        let record { value = (es, after); came = c'; went = w' } =
          ok_of_bind _
            (build_packages tools cfg graph staged overrides script pkgs
              (insert q.import_path r before))
            w in
        let same_drvs : drvs ≡ e ∷ es = sym (ap (λ x. x.0) (ok_cancel w')) in
        let same : after ≡ paths = ap (λ x. x.1) (ok_cancel w') in
        let ih =
          build-snoc pkgs pkg (insert q.import_path r before) paths es drv p
            (c' ∙ ap (λ x. ok (es, x)) same) k in
        rw (c, ih, same_drvs) refl

    -- The state behind the packages of the finished keys.
    pub record Done (start : Store) (done : List Text) : Type 0 where
      pub drvs : List Derivation
      pub paths : Dict StorePath
      pub store : Store
      pub built :
          build_packages tools cfg graph staged overrides script (collect graph done) []
          ≡ ok (drvs, paths)
      pub registered : register_package_derivations tools add drvs start ≡ ok store
      pub has :
          (k : Text) (pkg : Package)
          → Memᴰ k done
          → lookup k graph ≡ some pkg
          → (p : StorePath) × (lookup pkg.import_path paths ≡ some p) × IsDrvPath p
      pub held :
          (j : Text) (p : StorePath) → lookup j paths ≡ some p → Holds store (absolute tools p)

    build_none : build_packages tools cfg graph staged overrides script [] [] ≡ ok ([], [])
    unfolding build_packages
    build_none = refl

    -- A key that is no package of the graph.
    skip_done :
        (start : Store) (k : Text) (done : List Text)
        → lookup k graph ≡ none
        → Done start done
        → Done start (k ∷ done)
    skip_done start k done outside before = record {
      drvs = before.drvs;
      paths = before.paths;
      store = before.store;
      built =
          subst
            (λ o.
              build_packages tools cfg graph staged overrides script
                (collect graph done ++ option_list o) []
              ≡ ok (before.drvs, before.paths))
            (sym outside)
            (subst
              (λ l.
                build_packages tools cfg graph staged overrides script l []
                ≡ ok (before.drvs, before.paths))
              (sym (append-nil (collect graph done))) before.built);
      registered = before.registered;
      has = λ k' pkg m n. elim (Memᴰ.cases_cons m) [
        | inl e ↦ cc (outside, n, e)
        | inr t ↦ before.has k' pkg t n
      ];
      held = before.held;
    }

    module _ (start : Store) (accepts : Accepts) (has_path : NamesPaths tools)
        (marshals : Marshals tools)
        (sourced : (k : Text) (pkg : Package)
          → lookup k graph ≡ some pkg
          → Sourced tools staged pkg) where
      dep-Available :
          (k : Text) (pkg : Package) (done : List Text) (before : Done start done)
          → lookup k graph ≡ some pkg
          → ((d : Text) → Memᴰ d (imports_in graph k) → Memᴰ d done)
          → (imp : Text) → Memᴰ imp pkg.imports
          → Available tools graph before.paths imp
      dep-Available k pkg done before found closed imp m = elim (Option-cases (lookup imp graph)) [
        | inl outside ↦ inl outside
        | inr (dep, n) ↦
            let among : Memᴰ imp (imports_in graph k) =
              subst (λ o. Memᴰ imp (imports_or_none o)) (sym found) m in
            let (p, at, named) = before.has imp dep (closed imp among) n in
            inr (dep, p, n, at, named)
      ]

      add_done :
          (k : Text) (pkg : Package) (done : List Text)
          → lookup k graph ≡ some pkg
          → ((d : Text) → Memᴰ d (imports_in graph k) → Memᴰ d done)
          → Done start done
          → Done start (k ∷ done)
      add_done k pkg done found closed before =
          let (drv, p, q, b) =
            build_package_drv_total tools has_path marshals cfg graph before.paths staged overrides
              script pkg (sourced k pkg found) (dep-Available k pkg done before found closed) in
          let (s', added, holds_p, keeps) = accepts drv before.store p b.path (λ x m.
            let (j, r, at, e) = b.inputs x m in
            subst (Holds before.store) (sym e) (before.held j r at)) in
          record {
            drvs = before.drvs ++ drv ∷ [];
            paths = insert pkg.import_path p before.paths;
            store = s';
            built =
                subst
                  (λ o.
                    build_packages tools cfg graph staged overrides script
                      (collect graph done ++ option_list o) []
                    ≡ ok (before.drvs ++ drv ∷ [], insert pkg.import_path p before.paths))
                  (sym found)
                  (build-snoc (collect graph done) pkg [] before.paths before.drvs drv p
                    before.built q);
            registered =
                register-snoc before.drvs drv start before.store s' before.registered
                  (register_package_added drv before.store s' p b.path added);
            has = λ k' pkg' m n.
                insert_has before.paths pkg.import_path pkg'.import_path p b.named
                  (elim (Memᴰ.cases_cons m) [
                    | inl e ↦ inl (
                        ap (λ x. x.import_path)
                          (some_cancel (sym found ∙ ap (λ x. lookup x graph) (sym e) ∙ n)))
                    | inr t ↦ inr (before.has k' pkg' t n)
                  ]);
            held = λ j p' h. elim (insert_cases before.paths pkg.import_path j p p' h) [
              | inl e ↦ subst (λ x. Holds s' (absolute tools x)) (sym e) holds_p
              | inr old ↦ keeps _ (before.held j p' old)
            ];
          }

      pub all_done : (done : List Text) → IsClosed (imports_in graph) done → Done start done
      all_done [] closed = record {
        drvs = [];
        paths = [];
        store = start;
        built = build_none;
        registered = register_none start;
        has = λ k pkg m n. absurd (Memᴰ.not-nil m);
        held = λ j p h. cc;
      }
      all_done (k ∷ done) (first, _, closed) = elim (Option-cases (lookup k graph)) [
        | inl outside ↦ skip_done start k done outside (all_done done closed)
        | inr (pkg, found) ↦ add_done k pkg done found first (all_done done closed)
      ]
