-- ===== src/Resolver/Modules.antt =====
-- go/go2nix/pkg/resolve/resolve.go: the fixed-output derivations that fetch the modules of a lockfile,
-- their outputs, and the module cache that is made of them.
pub mod Fetched
mod Tests
use go2nix.Base.{
  ℕ, List, [], ◌∷◌, ◌++◌, Option, none, some, Text, codes, text_eq, cut, sort, length, ◌==◌, map,
  Dict, lookup, insert, keys, Result, ok, err, ◌>>=◌, if◌then◌else◌,
}
use go2nix.Lock.Check.{Lockfile}
use go2nix.Scripts.{fod_script}
use go2nix.NixDrv.Names.{mod_drv_name}
use go2nix.NixDrv.Placeholder.{StorePath}
use go2nix.NixDrv.Derivation.{
  Derivation, new_derivation, add_arg, set_env, add_fod_output, add_input_src,
}
use go2nix.Graph.Packages.{is_empty}
use go2nix.Resolver.Config.{
  Config, Tools, ResolveError, invalid_module_key, not_escaped, store_dir_of, absolute,
}
use go2nix.Resolver.Package.{path_of}

-- The path that a module is fetched by.
abbrev pub fetch_path_of : Lockfile → Text → Text → Text
fetch_path_of lock mod_key mod_path = elim (lookup mod_key lock.replaces) [
  | none ↦ mod_path
  | some r ↦ r
]

unfoldable pub add_dir_given : Text → Derivation → Derivation
unfolding store_dir_of
add_dir_given path d = if text_eq path [] then d else add_input_src (store_dir_of path) d

abbrev pub module_parts : Text → Result ResolveError (Text × Text)
module_parts mod_key = elim (cut mod_key b'@') [
  | none ↦ err (invalid_module_key mod_key)
  | some parts ↦ ok parts
]

abbrev pub escaped : (Text → Option Text) → Text → Result ResolveError Text
escaped escape text = elim (escape text) [ none ↦ err (not_escaped text) | some e ↦ ok e ]

module _ (tools : Tools) where
  unfoldable pub fetch_script : Config → Text → Text → Text → Text → Text
  unfolding fod_script
  fetch_script cfg fetch version escaped_path escaped_version =
      fod_script cfg.go_bin cfg.coreutils_dir fetch version
        (escaped_path ++ (codes "@" ++ escaped_version)) cfg.ca_cert cfg.netrc_file

  -- The derivation for a module with a script and a hash.
  unfoldable pub module_drv : Config → Text → Text → Text → Derivation
  unfolding mod_drv_name store_dir_of add_dir_given
  module_drv cfg mod_key hash script =
      let bash = store_dir_of cfg.bash_bin in
      let d =
        new_derivation (mod_drv_name tools.sha256 mod_key) cfg.system (bash ++ codes "/bin/bash") in
      let with_output =
        add_fod_output (codes "out") (codes "nar") hash (add_arg script (add_arg (codes "-c") d)) in
      add_dir_given cfg.netrc_file (
        add_dir_given cfg.ca_cert (
          add_input_src cfg.coreutils_dir (
            add_input_src (store_dir_of cfg.go_bin)
              (add_input_src bash (set_env (codes "out") [] with_output)))))

  -- The body of the loop over the modules.
  unfoldable pub module_fod :
      Config → Lockfile → Text → Text → Result ResolveError (Derivation × StorePath)
  unfolding fetch_script module_drv path_of
  module_fod cfg lock mod_key hash = do
    (mod_path, version) ← module_parts mod_key
    escaped_path ← escaped tools.escape_path (fetch_path_of lock mod_key mod_path)
    escaped_version ← escaped tools.escape_version version
    let drv = module_drv cfg mod_key hash (
        fetch_script cfg (fetch_path_of lock mod_key mod_path) version escaped_path escaped_version)
    path ← path_of tools mod_key drv
    ok (drv, path)

  -- The loop, which goes over the modules in an order that the map chooses.
  unfoldable pub build_module_fods :
      Config → Lockfile → Dict Text → Result ResolveError (Dict StorePath × List Derivation)
  unfolding module_fod
  build_module_fods cfg lock [] = ok ([], [])
  build_module_fods cfg lock ((mod_key, hash) ∷ mods) = do
    (drv, path) ← module_fod cfg lock mod_key hash
    (paths, drvs) ← build_module_fods cfg lock mods
    ok (insert mod_key path paths, drv ∷ drvs)

  pub data BuildError : Type 0 where
    not_built : BuildError
    wrong_count : (expected got : ℕ) → BuildError

  -- The output of a derivation, as Nix names it; a key of the map has a path.
  abbrev pub installable : Dict StorePath → Text → Text
  installable drv_paths k = elim (lookup k drv_paths) [
    | none ↦ []
    | some p ↦ absolute tools p ++ codes "^out"
  ]

  abbrev pub pair_up : List Text → List StorePath → Dict StorePath
  pair_up [] paths = []
  pair_up (k ∷ ks) [] = []
  pair_up (k ∷ ks) (p ∷ paths) = insert k p (pair_up ks paths)

  abbrev pub paired : List Text → List StorePath → Result BuildError (Dict StorePath)
  paired ks paths =
      if length paths == length ks
      then ok (pair_up ks paths)
      else err (wrong_count (length ks) (length paths))

  -- `build` is the Build of a store.
  unfoldable pub build_fods :
      (List Text → Option (List StorePath)) → Dict StorePath → Result BuildError (Dict StorePath)
  unfolding sort
  build_fods build drv_paths =
      if is_empty drv_paths
      then ok []
      else elim (build (map (installable drv_paths) (sort (keys drv_paths)))) [
        | none ↦ err not_built
        | some paths ↦ paired (sort (keys drv_paths)) paths
      ]
