-- ===== src/Graph/Resolved.antt =====
-- When a graph can be built, and what it holds.
use go2nix.Base.{
  List, [], ◌∷◌, ◌≡◌, refl, sym, ap, ◌∙◌, subst, inl, inr, ◌⊎◌, Option, none, some, Option-cases,
  Bool-cases, Text, Text-cases, text_eq, text_eq_refl, text_eq_iff, ◌≢◌, Dict, lookup, insert,
  lookup-insert, Memᴰ, ok, err, if◌then◌else◌,
}
use mathlib.Core.List.Memᴰ
use go2nix.Lock.Mods.{ModVersion, GoMod}
use go2nix.Lock.Check.{Lockfile, required_key, check}
use go2nix.Lock.Exact.{check_exact}
use go2nix.Graph.Packages.{Module, Pkg, mod_key}
use go2nix.Graph.{
  ResolvedPkg, missing_module, third_party, third_party_pkg, local_pkg, resolve_pkg, add_packages,
  build_package_graph,
}

module _ {StorePath : Type 0} (show : Text → Text → Text) (rel : Text → Text → Option Text)
    (fod_paths : Dict StorePath) (src_root : Text) where
  -- What a package becomes: a local one, or one of a module whose store path is known.
  abbrev pub Resolves : Pkg → ResolvedPkg StorePath → Type 0
  Resolves pkg rp =
      ((third_party pkg.pkg_module ≡ none) × (rp ≡ local_pkg show rel src_root pkg))
      ⊎ ((m : Module) × (path : StorePath) × (third_party pkg.pkg_module ≡ some m)
          × (lookup (mod_key show m) fod_paths ≡ some path)
          × (rp ≡ third_party_pkg show rel m path pkg))

  -- A package whose module has no store path.
  abbrev pub Misses : Text → Pkg → Type 0
  Misses k pkg =
      (m : Module) × (third_party pkg.pkg_module ≡ some m)
      × (mod_key show m ≡ k)
      × (lookup k fod_paths ≡ none)

  resolve_pkg_cases :
      (pkg : Pkg)
      → ((rp : ResolvedPkg StorePath) × (resolve_pkg show rel fod_paths src_root pkg ≡ ok rp)
          × Resolves pkg rp)
        ⊎ ((k : Text) × (resolve_pkg show rel fod_paths src_root pkg ≡ err (missing_module k))
            × Misses k pkg)
  unfolding resolve_pkg
  resolve_pkg_cases pkg = elim (Option-cases (third_party pkg.pkg_module)) [
    | inl n ↦ inl (local_pkg show rel src_root pkg, rw (n, resolve_pkg) refl, inl (n, refl))
    | inr (m, n) ↦ elim (Option-cases (lookup (mod_key show m) fod_paths)) [
      | inl l ↦ inr (mod_key show m, rw (n, resolve_pkg, l) refl, (m, n, refl, l))
      | inr (path, l) ↦ inl (
        third_party_pkg show rel m path pkg,
        rw (n, resolve_pkg, l) refl,
        inr (m, path, n, l, refl),
      )
    ]
  ]

  -- Where a package in a graph comes from, and which paths are in it.
  abbrev pub Comes : List Pkg → Text → ResolvedPkg StorePath → Type 0
  Comes pkgs k rp = (pkg : Pkg) × Memᴰ pkg pkgs × (pkg.import_path ≡ k) × Resolves pkg rp

  abbrev pub IsIn : Dict (ResolvedPkg StorePath) → Text → Type 0
  IsIn graph k = (rp : ResolvedPkg StorePath) × (lookup k graph ≡ some rp)

  -- Outcomes of the loop, for the graph before it.
  record Grown (pkgs : List Pkg) (before graph : Dict (ResolvedPkg StorePath)) : Type 0 where
    from :
        (k : Text) (rp : ResolvedPkg StorePath)
        → lookup k graph ≡ some rp
        → (lookup k before ≡ some rp) ⊎ Comes pkgs k rp
    keeps : (k : Text) → IsIn before k → IsIn graph k
    holds : (pkg : Pkg) → Memᴰ pkg pkgs → IsIn graph pkg.import_path

  insert-IsIn_self :
      (k : Text) (rp : ResolvedPkg StorePath) (graph : Dict (ResolvedPkg StorePath))
      → IsIn (insert k rp graph) k
  insert-IsIn_self k rp graph = (rp, rw (lookup-insert graph k rp k, text_eq_refl k) refl)

  insert-IsIn :
      (j k : Text) (rp : ResolvedPkg StorePath) (graph : Dict (ResolvedPkg StorePath))
      → IsIn graph k
      → IsIn (insert j rp graph) k
  insert-IsIn j k rp graph (old, h) = elim (Bool-cases (text_eq j k)) [
    | inl e ↦ (rp, rw (lookup-insert graph j rp k, e) refl)
    | inr e ↦ (old, rw (lookup-insert graph j rp k, e) h)
  ]

  -- What is under a key after an insertion.
  inserted :
      (j k : Text) (rp found : ResolvedPkg StorePath) (graph : Dict (ResolvedPkg StorePath))
      → lookup k (insert j rp graph) ≡ some found
      → ((j ≡ k) × (rp ≡ found)) ⊎ (lookup k graph ≡ some found)
  inserted j k rp found graph h = elim (Text-cases j k) [
    | inl e ↦
        let same : some rp ≡ some found =
          ap (λ x. if x then some rp else lookup k graph) (sym ((text_eq_iff j k).1 e))
          ∙ sym (lookup-insert graph j rp k)
          ∙ h in
        inl (e, cc)
    | inr e ↦ inr (
        ap (λ x. if x then some rp else lookup k graph) (sym e)
        ∙ sym (lookup-insert graph j rp k)
        ∙ h)
  ]

  step-Grown :
      (pkg : Pkg) (pkgs : List Pkg) (before graph : Dict (ResolvedPkg StorePath))
      (rp : ResolvedPkg StorePath)
      → Resolves pkg rp
      → Grown pkgs (insert pkg.import_path rp before) graph
      → Grown (pkg ∷ pkgs) before graph
  step-Grown pkg pkgs before graph rp r g = record {
    from = λ k found h. elim (g.from k found h) [
      | inr (p, m, e, q) ↦ inr (p, Memᴰ.tail m, e, q)
      | inl h' ↦ elim (inserted pkg.import_path k rp found before h') [
        | inl (e, same) ↦ inr (pkg, Memᴰ.head refl, e, subst (Resolves pkg) same r)
        | inr old ↦ inl old
      ]
    ];
    keeps = λ k old. g.keeps k (insert-IsIn pkg.import_path k rp before old);
    holds = λ p m. elim (Memᴰ.cases_cons m) [
      | inl e ↦
          subst (λ x. IsIn graph x.import_path) (sym e)
            (g.keeps pkg.import_path (insert-IsIn_self pkg.import_path rp before))
      | inr t ↦ g.holds p t
    ];
  }

  add_packages_cases :
      (pkgs : List Pkg) (before : Dict (ResolvedPkg StorePath))
      → ((graph : Dict (ResolvedPkg StorePath)) × (add_packages show rel fod_paths src_root pkgs
              before
            ≡ ok graph)
          × Grown pkgs before graph)
        ⊎ ((k : Text) × (pkg : Pkg) × (add_packages show rel fod_paths src_root pkgs before
              ≡ err (missing_module k))
            × Memᴰ pkg pkgs
            × Misses k pkg)
  unfolding add_packages
  add_packages_cases [] before = inl (
    before,
    refl,
    record {
      from = λ k rp h. inl h;
      keeps = λ k old. old;
      holds = λ pkg m. absurd (Memᴰ.not-nil m);
    },
  )
  add_packages_cases (pkg ∷ pkgs) before = elim (resolve_pkg_cases pkg) [
    | inr (k, e, missing) ↦ inr (k, pkg, rw (e, add_packages) refl, Memᴰ.head refl, missing)
    | inl (rp, e, r) ↦ elim (add_packages_cases pkgs (insert pkg.import_path rp before)) [
      | inl (graph, h, g) ↦
          inl (graph, rw (e, add_packages) h, step-Grown pkg pkgs before graph rp r g)
      | inr (k, p, h, m, missing) ↦ inr (k, p, rw (e, add_packages) h, Memᴰ.tail m, missing)
    ]
  ]

  -- A graph is built, with every package that was listed under its import path, and nothing else,
  -- or a package of the list is of a module that has no store path, and the error names the module.
  pub build_package_graph_cases :
      (pkgs : List Pkg)
      → ((graph : Dict (ResolvedPkg StorePath)) × (build_package_graph show rel pkgs fod_paths
              src_root
            ≡ ok graph)
          × ((pkg : Pkg) → Memᴰ pkg pkgs → IsIn graph pkg.import_path)
          × ((k : Text) (rp : ResolvedPkg StorePath) → lookup k graph ≡ some rp → Comes pkgs k rp))
        ⊎ ((k : Text) × (pkg : Pkg) × (build_package_graph show rel pkgs fod_paths src_root
              ≡ err (missing_module k))
            × Memᴰ pkg pkgs
            × Misses k pkg)
  unfolding build_package_graph
  build_package_graph_cases pkgs = elim (add_packages_cases pkgs []) [
    | inr failed ↦ inr failed
    | inl (graph, h, g) ↦
        inl (graph, h, g.holds, λ k rp l. elim (g.from k rp l) [ inl old ↦ cc | inr c ↦ c ])
  ]

  -- Where the check accepts the lockfile of a project, every module with a hash in the lockfile has
  -- a store path, and the third-party modules of the packages are those that the go.mod requires,
  -- the graph is built.
  pub check-build_package_graph :
      (gm : GoMod) (lock : Lockfile) (pkgs : List Pkg)
      → check show gm lock ≡ ok tt
      → ((k h : Text) → lookup k lock.mods ≡ some h → lookup k fod_paths ≢ none)
      → ((pkg : Pkg) (m : Module)
          → Memᴰ pkg pkgs
          → third_party pkg.pkg_module ≡ some m
          → (req : ModVersion) × Memᴰ req gm.require
            × (required_key show gm req ≡ some (mod_key show m)))
      → (graph : Dict (ResolvedPkg StorePath)) × (build_package_graph show rel pkgs fod_paths
            src_root
          ≡ ok graph)
  check-build_package_graph gm lock pkgs accepted stored required =
      elim (build_package_graph_cases pkgs) [
        | inl (graph, h, _, _) ↦ (graph, h)
        | inr (k, pkg, _, m, (its, third, named, missing)) ↦
            let (req, r, key) = required pkg its m third in
            elim (Option-cases (lookup k lock.mods)) [
              | inl n ↦
                  absurd
                    ((check_exact show gm lock).0.0 accepted k (req, r, key ∙ ap some named, n))
              | inr (h, n) ↦ absurd (stored k h n missing)
            ]
      ]
