-- ===== src/Resolver/Modules/Fetched.antt =====
-- Every module of a lockfile is fetched by a fixed-output derivation, and has its output.
use go2nix.Base.{
  suc, List, [], ◌∷◌, ◌++◌, ◌≡◌, refl, sym, ap, subst, ◌∙◌, inl, inr, Bool-cases, Option, none,
  some, Text, Text-cases, codes, text_eq, text_eq_iff, cut, sort, sort-Memᴰ, length, ==_iff, map,
  Dict, lookup, insert, lookup-insert, keys, keys-Memᴰ, Memᴰ, Result, ok, err, ok_of_bind,
  ok_cancel,
}
use mathlib.Core.List.Memᴰ
use go2nix.Lock.Check.{Lockfile}
use go2nix.NixDrv.Placeholder.{StorePath}
use go2nix.NixDrv.Derivation.{
  Derivation, Output, new_derivation, add_arg, set_env, add_fod_output, add_input_src,
}
use go2nix.Resolver.Config.{Config, Tools, absolute}
use go2nix.Resolver.Package.{path_of}
use go2nix.Resolver.Modules.{
  fetch_path_of, add_dir_given, module_parts, escaped, fetch_script, module_drv, module_fod,
  build_module_fods, installable, pair_up, build_fods,
}

abbrev pub fod_out : Text → Output
fod_out hash = record { hash_algo = []; method = codes "nar"; hash = hash; path = [] }

-- A derivation with one output, of the hash, whose script fetches the module.
pub record Fetches (tools : Tools) (cfg : Config) (lock : Lockfile) (mod_key hash : Text)
    (drv : Derivation) : Type 0 where
  pub mod_path : Text
  pub version : Text
  pub escaped_path : Text
  pub escaped_version : Text
  pub parts : cut mod_key b'@' ≡ some (mod_path, version)
  pub path_escape : tools.escape_path (fetch_path_of lock mod_key mod_path) ≡ some escaped_path
  pub version_escape : tools.escape_version version ≡ some escaped_version
  pub args :
      drv.args
      ≡ codes "-c"
        ∷ fetch_script tools cfg
            (fetch_path_of lock mod_key mod_path)
            version
            escaped_path
            escaped_version
        ∷ []
  pub outputs : drv.outputs ≡ (codes "out", fod_out hash) ∷ []

some_of_ok :
    {E A : Type 0} (o : Option A) (e : E) (a : A)
    → elim o as (λ _. Result E A) [ none ↦ err e | some x ↦ ok x ] ≡ ok a
    → o ≡ some a
some_of_ok none e a h = cc
some_of_ok (some x) e a h = ap (λ y. some y) (ok_cancel h)

add_dir_given_same :
    (path : Text) (d : Derivation)
    → ((add_dir_given path d).args ≡ d.args) × ((add_dir_given path d).outputs ≡ d.outputs)
unfolding add_input_src add_dir_given
add_dir_given_same path d = elim (Bool-cases (text_eq path [])) [
  | inl e ↦ rw e (refl, refl)
  | inr e ↦ rw e (refl, refl)
]

module _ (tools : Tools) (cfg : Config) where
  module_drv_parts :
      (mod_key hash script : Text)
      → ((module_drv tools cfg mod_key hash script).args ≡ codes "-c" ∷ script ∷ [])
        × ((module_drv tools cfg mod_key hash script).outputs ≡ (codes "out", fod_out hash) ∷ [])
  unfolding module_drv new_derivation add_arg set_env add_fod_output add_input_src
  module_drv_parts mod_key hash script =
      let (a, o) = add_dir_given_same cfg.netrc_file _ in
      let (a', o') = add_dir_given_same cfg.ca_cert _ in (a ∙ a', o ∙ o')

  module_fod-Fetches :
      (lock : Lockfile) (mod_key hash : Text) (drv : Derivation) (p : StorePath)
      → module_fod tools cfg lock mod_key hash ≡ ok (drv, p)
      → Fetches tools cfg lock mod_key hash drv × (path_of tools mod_key drv ≡ ok p)
  unfolding module_fod
  module_fod-Fetches lock mod_key hash drv p h =
      let record { value = (mod_path, version); came = parts; went = h1 } =
        ok_of_bind _ (module_parts mod_key) h in
      let record { value = ep; came = c2; went = h2 } =
        ok_of_bind _ (escaped tools.escape_path (fetch_path_of lock mod_key mod_path)) h1 in
      let record { value = ev; came = c3; went = h3 } =
        ok_of_bind _ (escaped tools.escape_version version) h2 in
      let script = fetch_script tools cfg (fetch_path_of lock mod_key mod_path) version ep ev in
      let record { value = path; came = c4; went = h4 } =
        ok_of_bind _ (path_of tools mod_key (module_drv tools cfg mod_key hash script)) h3 in
      let built : module_drv tools cfg mod_key hash script ≡ drv = ap (λ x. x.0) (ok_cancel h4) in
      let same : path ≡ p = ap (λ x. x.1) (ok_cancel h4) in
      let (args, outputs) = module_drv_parts mod_key hash script in
      (
        record {
          mod_path = mod_path;
          version = version;
          escaped_path = ep;
          escaped_version = ev;
          parts = some_of_ok (cut mod_key b'@') _ _ parts;
          path_escape = some_of_ok (tools.escape_path (fetch_path_of lock mod_key mod_path)) _ _ c2;
          version_escape = some_of_ok (tools.escape_version version) _ _ c3;
          args = subst (λ d. d.args ≡ codes "-c" ∷ script ∷ []) built args;
          outputs = subst (λ d. d.outputs ≡ (codes "out", fod_out hash) ∷ []) built outputs;
        },
        ap (path_of tools mod_key) (sym built) ∙ c4 ∙ ap (λ x. ok x) same,
      )

  build_module_fods_each :
      (lock : Lockfile) (mods : Dict Text) (paths : Dict StorePath) (drvs : List Derivation)
      → build_module_fods tools cfg lock mods ≡ ok (paths, drvs)
      → (k hash : Text) → lookup k mods ≡ some hash
      → (drv : Derivation) × (p : StorePath) × Memᴰ drv drvs
        × (lookup k paths ≡ some p)
        × (module_fod tools cfg lock k hash ≡ ok (drv, p))
  unfolding build_module_fods
  build_module_fods_each lock [] paths drvs h k hash l = cc
  build_module_fods_each lock ((j, v) ∷ mods) paths drvs h k hash l =
      let record { value = (drv, p); came = c; went = h1 } =
        ok_of_bind _ (module_fod tools cfg lock j v) h in
      let record { value = (rest, others); came = c'; went = h2 } =
        ok_of_bind _ (build_module_fods tools cfg lock mods) h1 in
      let same : insert j p rest ≡ paths = ap (λ x. x.0) (ok_cancel h2) in
      let same_drvs : drv ∷ others ≡ drvs = ap (λ x. x.1) (ok_cancel h2) in
      elim (Bool-cases (text_eq j k)) [
        | inl e ↦
            let named : j ≡ k = (text_eq_iff j k).0 e in
            let hashed : v ≡ hash = some_inj (rw e at l) in
            (
              drv,
              p,
              subst (Memᴰ drv) same_drvs (Memᴰ.head refl),
              ap (lookup k) (sym same) ∙ lookup-insert rest j p k ∙ rw e refl,
              subst (λ x. module_fod tools cfg lock x hash ≡ ok (drv, p)) named
                  (subst (λ x. module_fod tools cfg lock j x ≡ ok (drv, p)) hashed c),
            )
        | inr e ↦
            let (d, q, m, at, its) =
              build_module_fods_each lock mods rest others c' k hash (rw e at l) in
            (
              d,
              q,
              subst (Memᴰ d) same_drvs (Memᴰ.tail m),
              ap (lookup k) (sym same) ∙ lookup-insert rest j p k ∙ rw e at,
              its,
            )
      ]
    where
      some_inj : {A : Type 0} {x y : A} → ◌≡◌ {A = Option A} (some x) (some y) → x ≡ y
      some_inj h = cc

  -- What Nix promises of a build: the output of each installable, in their order.
  abbrev pub Builds : (List Text → Option (List StorePath)) → (Text → StorePath) → Type 0
  Builds build output_of = (names : List Text) → build names ≡ some (map output_of names)

  lookup-pair_up :
      (output_of : Text → StorePath) (name : Text → Text) (ks : List Text) (k : Text)
      → Memᴰ k ks
      → lookup k (pair_up tools ks (map output_of (map name ks))) ≡ some (output_of (name k))
  lookup-pair_up output_of name [] k m = absurd (Memᴰ.not-nil m)
  lookup-pair_up output_of name (j ∷ ks) k m =
      let rest = pair_up tools ks (map output_of (map name ks)) in
      let at = lookup-insert rest j (output_of (name j)) k in
      elim (Text-cases j k) [
        | inl e ↦ at ∙ rw ((text_eq_iff j k).1 e) (ap (λ x. some (output_of (name x))) e)
        | inr e ↦ elim (Memᴰ.cases_cons m) [
          | inl q ↦ cc (e, (text_eq_iff j k).1 (sym q))
          | inr t ↦ at ∙ rw e (lookup-pair_up output_of name ks k t)
        ]
      ]

  length-outputs :
      (output_of : Text → StorePath) (name : Text → Text) (ks : List Text)
      → length (map output_of (map name ks)) ≡ length ks
  length-outputs output_of name [] = refl
  length-outputs output_of name (k ∷ ks) = ap (λ n. suc n) (length-outputs output_of name ks)

  build_fods_each :
      (build : List Text → Option (List StorePath)) (output_of : Text → StorePath)
      (paths : Dict StorePath)
      → Builds build output_of
      → (outputs : Dict StorePath) × (build_fods tools build paths ≡ ok outputs)
        × ((k : Text) (p : StorePath)
            → lookup k paths ≡ some p
            → lookup k outputs ≡ some (output_of (absolute tools p ++ codes "^out")))
  unfolding build_fods
  build_fods_each build output_of [] builds = ([], refl, λ k p h. cc)
  build_fods_each build output_of (first ∷ rest) builds =
      let paths = first ∷ rest in
      let ks = sort (keys paths) in
      let outs = map output_of (map (installable tools paths) ks) in
      (
        pair_up tools ks outs,
        rw
            (
              builds (map (installable tools paths) ks),
              (==_iff (length outs) (length ks)).1
                  (length-outputs output_of (installable tools paths) ks),
            )
            refl,
        λ k p h.
            lookup-pair_up output_of (installable tools paths) ks k
              ((sort-Memᴰ k (keys paths)).1 (keys-Memᴰ k paths h))
            ∙ ap (λ x. some (output_of x)) (named paths k p h),
      )
    where
      named :
          (ps : Dict StorePath) (k : Text) (p : StorePath)
          → lookup k ps ≡ some p
          → installable tools ps k ≡ absolute tools p ++ codes "^out"
      named ps k p h = rw (h, installable) refl

  -- Where Nix builds what it is given, in order, and the derivations of a lockfile's modules can be
  -- made, building them gives a store path to every module of the lockfile: the output of a
  -- fixed-output derivation of its own, of the hash that the lockfile has, whose script fetches the
  -- version from the module's path, or from its replacement where the lockfile has one.
  pub build_fods_fetched :
      (build : List Text → Option (List StorePath)) (output_of : Text → StorePath) (lock : Lockfile)
      (paths : Dict StorePath) (drvs : List Derivation)
      → Builds build output_of
      → build_module_fods tools cfg lock lock.mods ≡ ok (paths, drvs)
      → (outputs : Dict StorePath) × (build_fods tools build paths ≡ ok outputs)
        × ((k hash : Text)
            → lookup k lock.mods ≡ some hash
            → (drv : Derivation) × (p : StorePath) × Memᴰ drv drvs
              × Fetches tools cfg lock k hash drv
              × (path_of tools k drv ≡ ok p)
              × (lookup k outputs ≡ some (output_of (absolute tools p ++ codes "^out"))))
  build_fods_fetched build output_of lock paths drvs builds h =
      let (outputs, q, each) = build_fods_each build output_of paths builds in
      (
        outputs,
        q,
        λ k hash l.
            let (drv, p, m, at, its) =
              build_module_fods_each lock lock.mods paths drvs h k hash l in
            let (fetches, path) = module_fod-Fetches lock k hash drv p its in
            (drv, p, m, fetches, path, each k p at),
      )
