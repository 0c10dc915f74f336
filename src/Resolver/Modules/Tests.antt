-- ===== src/Resolver/Modules/Tests.antt =====
-- The fetching of modules at a lockfile with one module, which a fork replaces.
use go2nix.Base.{
  List, [], ◌∷◌, ◌++◌, ◌≡◌, refl, some, Text, codes, Dict, lookup, Memᴰ, map, Result, ok,
}
use go2nix.NixDrv.Placeholder.{StorePath}
use go2nix.NixDrv.Derivation.{
  Derivation, add_input_src, set_env, add_fod_output, add_arg, new_derivation,
}
use go2nix.Resolver.Config.{Tools, ResolveError, absolute}
use go2nix.Resolver.Package.{path_of}
use go2nix.Lock.Check.{Lockfile}
use go2nix.Resolver.Modules.{fetch_script, module_drv, build_module_fods, build_fods}
use go2nix.Resolver.Modules.Fetched.{Fetches, build_fods_fetched}
use go2nix.Resolver.Tests.{tools, config, path_at}

-- Tools that know hashes and the output paths of fixed-output derivations.
abbrev fod_tools : Tools
fod_tools = record tools {
  parse_any = λ sri. some (codes "sha256", sri);
  calculate_output_paths = λ _. some ((codes "out", codes "/nix/store/o-out") ∷ []);
}

abbrev lock : Lockfile
lock = record {
  mods = (codes "a@v2", codes "sha256-x") ∷ [];
  replaces = (codes "a@v2", codes "fork") ∷ [];
}

abbrev output_of : Text → StorePath
output_of name = path_at (codes "src")

abbrev fod_path : StorePath
fod_path = record { name = codes "gomod-a_at_v2.drv"; digest = codes "d" }

abbrev fetch_args : Text
fetch_args = fetch_script fod_tools config (codes "fork") (codes "v2") (codes "fork") (codes "v2")

abbrev fods_built : Result ResolveError (Dict StorePath × List Derivation)
fods_built = build_module_fods fod_tools config lock lock.mods

fods_made :
    fods_built
    ≡ ok (
      (codes "a@v2", fod_path) ∷ [],
      module_drv fod_tools config (codes "a@v2") (codes "sha256-x") fetch_args ∷ [],
    )
unfolding build_module_fods add_input_src set_env add_fod_output add_arg new_derivation
fods_made = refl

two_built :
    (outputs : Dict StorePath) × (build_fods fod_tools
        (λ names. some (map output_of names))
        ((codes "a@v2", fod_path) ∷ [])
      ≡ ok outputs)
    × ((k hash : Text)
        → lookup k lock.mods ≡ some hash
        → (drv : Derivation) × (p : StorePath) × Memᴰ drv
            (module_drv fod_tools config (codes "a@v2") (codes "sha256-x") fetch_args ∷ [])
          × Fetches fod_tools config lock k hash drv
          × (path_of fod_tools k drv ≡ ok p)
          × (lookup k outputs ≡ some (output_of (absolute fod_tools p ++ codes "^out"))))
two_built =
    build_fods_fetched fod_tools config (λ names. some (map output_of names)) output_of lock
      ((codes "a@v2", fod_path) ∷ [])
      (module_drv fod_tools config (codes "a@v2") (codes "sha256-x") fetch_args ∷ [])
      (λ names. refl) fods_made
