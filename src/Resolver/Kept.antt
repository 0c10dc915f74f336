-- ===== src/Resolver/Kept.antt =====
-- What the methods of a derivation leave alone on the way to a package's derivation.
use go2nix.Base.{
  List, [], ◌∷◌, ◌≡◌, refl, ◌∙◌, inl, inr, Bool, true, false, Bool-cases, Text, codes, text_eq,
  if◌then◌else◌,
}
use go2nix.NixDrv.Derivation.{
  Derivation, Output, new_derivation, add_arg, set_env, add_ca_output, add_input_src,
}
use go2nix.Graph.Packages.{is_empty}
use go2nix.Resolver.Config.{Config, Tools}
use go2nix.Resolver.Inputs.{InputPaths}
use go2nix.Resolver.Package.{
  Package, Overrides, common_sources, out_value, set_given, set_version, add_srcs, wants_cc, add_cc,
  set_joined, add_pgo, setup_pkg_overrides, begin_package, end_package,
}

pub record Kept (d e : Derivation) : Type 0 where
  pub outputs : e.outputs ≡ d.outputs
  pub input_drvs : e.input_drvs ≡ d.input_drvs

pub Kept_refl : (d : Derivation) → Kept d d
Kept_refl d = record { outputs = refl; input_drvs = refl }

pub Kept_after : {d e f : Derivation} → Kept e f → Kept d e → Kept d f
Kept_after k h = record {
  outputs = k.outputs ∙ h.outputs;
  input_drvs = k.input_drvs ∙ h.input_drvs;
}

pub set_env-Kept : (key value : Text) (d : Derivation) → Kept d (set_env key value d)
unfolding set_env
set_env-Kept key value d = record { outputs = refl; input_drvs = refl }

pub add_input_src-Kept : (p : Text) (d : Derivation) → Kept d (add_input_src p d)
unfolding add_input_src
add_input_src-Kept p d = record { outputs = refl; input_drvs = refl }

pub add_srcs-Kept : (ps : List Text) (d : Derivation) → Kept d (add_srcs ps d)
unfolding add_srcs
add_srcs-Kept [] d = Kept_refl d
add_srcs-Kept (p ∷ ps) d =
    Kept_after (add_srcs-Kept ps (add_input_src p d)) (add_input_src-Kept p d)

-- A change that is made where a test holds, or where it fails.
pub if-Kept : (b : Bool) {d e f : Derivation} → Kept d e → Kept d f → Kept d (if b then e else f)
if-Kept true h k = h
if-Kept false h k = k

set_joined-Kept :
    (key : Text) (dirs : List Text) (value : Text) (d : Derivation)
    → Kept d (set_joined key dirs value d)
unfolding set_joined
set_joined-Kept key dirs value d = if-Kept (is_empty dirs) (Kept_refl d) (set_env-Kept key value d)

pub set_given-Kept : (key value : Text) (d : Derivation) → Kept d (set_given key value d)
unfolding set_given
set_given-Kept key value d = if-Kept (text_eq value []) (Kept_refl d) (set_env-Kept key value d)

set_version-Kept : (version : Text) (d : Derivation) → Kept d (set_version version d)
unfolding set_version
set_version-Kept version d = if-Kept (text_eq version []) (Kept_refl d) (set_env-Kept _ _ d)

add_cc-Kept : (cfg : Config) (pkg : Package) (d : Derivation) → Kept d (add_cc cfg pkg d)
unfolding add_cc
add_cc-Kept cfg pkg d = if-Kept (wants_cc cfg pkg) (add_input_src-Kept cfg.cc_dir d) (Kept_refl d)

pub add_pgo-Kept : (path : Text) (d : Derivation) → Kept d (add_pgo path d)
unfolding add_pgo
add_pgo-Kept path d = if-Kept (text_eq path []) (Kept_refl d) (add_input_src-Kept _ d)

abbrev pub ca_out : Output
ca_out = record { hash_algo = codes "sha256"; method = codes "nar"; hash = []; path = [] }

module _ (tools : Tools) where
  pub begin_package_fresh :
      (cfg : Config) (pkg : Package) (script : Text)
      → ((begin_package tools cfg pkg script).outputs ≡ (codes "out", ca_out) ∷ [])
        × ((begin_package tools cfg pkg script).input_drvs ≡ [])
  unfolding begin_package new_derivation add_arg set_env add_ca_output
  begin_package_fresh cfg pkg script = elim (Bool-cases (text_eq pkg.name (codes "main"))) [
    | inl e ↦ rw e (refl, refl)
    | inr e ↦ rw e (refl, refl)
  ]

  pub setup_pkg_overrides-Kept :
      (cfg : Config) (pkg : Package) (overrides : Overrides) (d : Derivation)
      → Kept d (setup_pkg_overrides tools cfg pkg overrides d).0
  unfolding setup_pkg_overrides
  setup_pkg_overrides-Kept cfg pkg overrides d = Kept_after (set_joined-Kept _ _ _ _) (
      Kept_after (set_joined-Kept _ _ _ _)
        (Kept_after (set_env-Kept _ _ _) (add_cc-Kept cfg pkg d)))

  pub end_package-Kept :
      (cfg : Config) (pkg : Package) (manifest : Text) (inputs : InputPaths) (d : Derivation)
      → Kept d (end_package tools cfg pkg manifest inputs d)
  unfolding end_package
  end_package-Kept cfg pkg manifest inputs d = Kept_after (add_srcs-Kept inputs.all _) (
      Kept_after (add_srcs-Kept (common_sources cfg) _) (
        Kept_after (set_env-Kept (codes "out") (out_value tools) _) (
          Kept_after (set_given-Kept (codes "CGO_ENABLED") cfg.cgo_enabled _) (
            Kept_after (set_version-Kept pkg.go_version _) (
              Kept_after (set_env-Kept (codes "passAsFile") (codes "importcfg_entries") _)
                (set_env-Kept (codes "compileManifestJSON") manifest d))))))
