-- ===== src/Resolver/Linked.antt =====
-- The derivations that link main packages, and the one that collects them.
use go2nix.Base.{
  ℕ, List, [], ◌∷◌, ◌++◌, ◌≡◌, refl, subst, ◌∙◌, inl, inr, Bool, some, Text, codes, text_eq, Dict,
  lookup, keys, Memᴰ, ok,
}
use mathlib.Core.List.Memᴰ
use go2nix.NixDrv.Placeholder.{StorePath, render}
use go2nix.NixDrv.Derivation.{
  Derivation, new_derivation, add_arg, set_env, add_ca_output, add_input_drv,
}
use go2nix.Resolver.Config.{Config, Tools, extract_sanitizer_flags, join, absolute}
use go2nix.Resolver.Package.{Package, out_value, entry_at}
use go2nix.Resolver.Kept.{
  Kept, Kept_refl, Kept_after, if-Kept, set_env-Kept, set_given-Kept, add_input_src-Kept,
  add_srcs-Kept, ca_out,
}
use go2nix.Resolver.Built.{
  IsDrvPath, NamesPaths, Linked, Linked-after, add_input_drv-Linked, placeholder_of_drv, path_of_ca,
  IsBuilt,
}
use go2nix.Resolver.Closure.{transitive_closure}
use go2nix.Resolver.Link.{
  generate_modinfo, stdlib_entries, package_output, link_entries, begin_link, end_link,
  build_link_drv,
}
use go2nix.Resolver.Parts.{
  bin_name, set_lib_dirs, add_linker_cc, set_extld, link_path_parts, link_sources, has_cgo,
}

set_lib_dirs-Kept : (cfg : Config) (d : Derivation) → Kept d (set_lib_dirs cfg d)
unfolding set_lib_dirs
set_lib_dirs-Kept cfg d = if-Kept _ (set_env-Kept _ _ d) (Kept_refl d)

add_linker_cc-Kept : (cfg : Config) (cgo : Bool) (d : Derivation) → Kept d (add_linker_cc cfg cgo d)
unfolding add_linker_cc
add_linker_cc-Kept cfg cgo d =
    if-Kept cgo (Kept_after (set_lib_dirs-Kept cfg _) (add_input_src-Kept cfg.cc_dir d))
      (Kept_refl d)

set_extld-Kept :
    (cfg : Config) (closure : List Package) (d : Derivation) → Kept d (set_extld cfg closure d)
unfolding set_extld
set_extld-Kept cfg closure d =
    if-Kept (text_eq cfg.cc_path []) (Kept_refl d)
      (Kept_after (add_linker_cc-Kept cfg (has_cgo closure) _) (set_env-Kept (codes "extld") _ d))

module _ (tools : Tools) (drv_paths : Dict StorePath) where
  begin_link_fresh :
      (cfg : Config) (name : Text)
      → ((begin_link tools drv_paths cfg name).outputs ≡ (codes "out", ca_out) ∷ [])
        × ((begin_link tools drv_paths cfg name).input_drvs ≡ [])
  unfolding begin_link new_derivation add_arg add_ca_output
  begin_link_fresh cfg name = (refl, refl)

  end_link-Kept :
      (cfg : Config) (main_pkg : Package) (closure : List Package) (entries : List Text)
      (goroot : Text) (d : Derivation)
      → Kept d (end_link tools drv_paths cfg main_pkg closure entries goroot d)
  unfolding end_link
  end_link-Kept cfg main_pkg closure entries goroot d =
      Kept_after (add_srcs-Kept (link_sources cfg) _) (
        Kept_after (set_env-Kept (codes "PATH") (join (link_path_parts cfg closure) (codes ":")) _)
          (Kept_after (set_extld-Kept cfg closure _) (
            Kept_after (set_env-Kept (codes "out") (out_value tools) _) (
              Kept_after (set_given-Kept (codes "godebugDefault") main_pkg.default_godebug _) (
                Kept_after (set_given-Kept (codes "goroot") goroot _) (
                  Kept_after
                    (set_given-Kept (codes "sanitizerLinkFlags")
                      (extract_sanitizer_flags cfg.gc_flags) _)
                    (Kept_after (set_env-Kept (codes "ldflags") cfg.ld_flags _) (
                      Kept_after (set_env-Kept (codes "passAsFile") (codes "importcfg_entries") _) (
                        set_env-Kept (codes "importcfg_entries") (join entries (codes "\n"))
                          d)))))))))

  -- A package that has a derivation.
  abbrev pub HasDrv : Package → Type 0
  HasDrv pkg = (p : StorePath) × (lookup pkg.import_path drv_paths ≡ some p) × IsDrvPath p

  module _ (graph : Dict Package) where
    package_output_total :
        (pkg : Package) (p : StorePath)
        → lookup pkg.import_path drv_paths ≡ some p
        → IsDrvPath p
        → (hash : List ℕ) × (package_output tools drv_paths pkg ≡ ok (p, hash))
    unfolding package_output
    package_output_total pkg p at named =
        let (hash, q) = placeholder_of_drv tools graph drv_paths pkg.import_path p named in
        (hash, rw (at, q, package_output) refl)

    link_entries_total :
        (pkgs : List Package) (d : Derivation)
        → ((pkg : Package) → Memᴰ pkg pkgs → HasDrv pkg)
        → (entries : List Text) × (e : Derivation) × (link_entries tools drv_paths pkgs d
            ≡ ok (entries, e))
          × Linked tools graph drv_paths d e
    unfolding link_entries
    link_entries_total [] d h = ([], d, refl, record { outputs = refl; inputs = λ k m. inl m })
    link_entries_total (pkg ∷ pkgs) d h =
        let (p, at, named) = h pkg (Memᴰ.head refl) in
        let (hash, q) = package_output_total pkg p at named in
        let (entries, e, q', l) =
          link_entries_total pkgs (add_input_drv (absolute tools p) (codes "out" ∷ []) d)
            (λ x m. h x (Memᴰ.tail m)) in
        (
          entry_at tools pkg.import_path hash ∷ entries,
          e,
          rw (q, q') refl,
          Linked-after tools graph drv_paths l
              (add_input_drv-Linked tools graph drv_paths pkg.import_path p _ d at),
        )

    pub build_link_drv_total :
        NamesPaths tools
        → (cfg : Config) (sorted : List Package) (main_pkg : Package) (mains : ℕ)
          (stdlib_imports : List Text) (goroot : Text)
        → HasDrv main_pkg
        → ((pkg : Package) → Memᴰ pkg (transitive_closure graph main_pkg) → HasDrv pkg)
        → (drv : Derivation) × (p : StorePath) × (build_link_drv tools drv_paths cfg graph sorted
              main_pkg mains stdlib_imports goroot
            ≡ ok (p, drv))
          × IsBuilt tools drv_paths drv p
    unfolding build_link_drv
    build_link_drv_total has_path cfg sorted main_pkg mains stdlib_imports goroot
          (main_path, at, named) has =
        let (hash, q) = package_output_total main_pkg main_path at named in
        let closure = transitive_closure graph main_pkg in
        let begun = begin_link tools drv_paths cfg (bin_name cfg main_pkg mains) in
        let with_env = set_env (codes "mainPkg") (render tools.sha256 tools.nixbase32 hash) begun in
        let with_main = add_input_drv (absolute tools main_path) (codes "out" ∷ []) with_env in
        let (fresh, none_yet) = begin_link_fresh cfg (bin_name cfg main_pkg mains) in
        let kept =
          set_env-Kept (codes "mainPkg") (render tools.sha256 tools.nixbase32 hash) begun in
        let first =
          add_input_drv-Linked tools graph drv_paths main_pkg.import_path main_path
            (codes "out" ∷ []) with_env at in
        let (entries, e, q', l) = link_entries_total closure with_main has in
        let all_entries =
          entries
          ++ (stdlib_entries tools cfg stdlib_imports
              ++ generate_modinfo tools cfg sorted main_pkg.import_path main_pkg.default_godebug) in
        let drv = end_link tools drv_paths cfg main_pkg closure all_entries goroot e in
        let last = end_link-Kept cfg main_pkg closure all_entries goroot e in
        let (p, path, drv_named) =
          path_of_ca tools has_path drv
            (last.outputs ∙ l.outputs ∙ first.outputs ∙ kept.outputs ∙ fresh) in
        (
          drv,
          p,
          rw (q, q', path drv.name) refl,
          record {
            path = path;
            named = drv_named;
            inputs = λ k i. elim (l.inputs k (subst (λ x. Memᴰ k (keys x)) last.input_drvs i)) [
              | inr found ↦ found
              | inl old ↦ elim (first.inputs k old) [
                | inr found ↦ found
                | inl older ↦
                    absurd (
                      Memᴰ.not-nil
                        (subst (λ x. Memᴰ k (keys x)) (kept.input_drvs ∙ none_yet) older))
              ]
            ];
          },
        )
