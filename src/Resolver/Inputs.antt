-- ===== src/Resolver/Inputs.antt =====
-- discoverInputPaths of go/go2nix/pkg/resolve/resolve.go: what store paths and the inputs that they
-- propagate provide. `is_dir` and the file of propagated inputs are arguments.
pub mod Exact
mod Tests
use go2nix.Base.{
  ℕ, zero, suc, List, [], ◌∷◌, ◌++◌, Bool, Option, none, some, Text, codes, text_eq, any,
  if◌then◌else◌,
}
use go2nix.BuildInfo.Spaces.{fields}
use go2nix.Search.{walk_each, depth_walk}

pub record InputPaths : Type 0 where
  pub bin_dirs : List Text
  pub pkg_config_dirs : List Text
  pub include_dirs : List Text
  pub lib_dirs : List Text
  pub all : List Text

abbrev pub no_inputs : InputPaths
no_inputs = record {
  bin_dirs = [];
  pkg_config_dirs = [];
  include_dirs = [];
  lib_dirs = [];
  all = [];
}

module _ (is_dir : Text → Bool) (propagated : Text → Option Text) where
  abbrev pub if_dir : Text → List Text
  if_dir path = if is_dir path then path ∷ [] else []

  -- The part of `walk` before it follows the propagated inputs; `visited` has the paths of All.
  unfoldable pub add_path : Text → InputPaths → InputPaths
  add_path p found = record {
    bin_dirs = found.bin_dirs ++ if_dir (p ++ codes "/bin");
    pkg_config_dirs =
        (found.pkg_config_dirs ++ if_dir (p ++ codes "/lib/pkgconfig"))
        ++ if_dir (p ++ codes "/share/pkgconfig");
    include_dirs = found.include_dirs ++ if_dir (p ++ codes "/include");
    lib_dirs = found.lib_dirs ++ if_dir (p ++ codes "/lib");
    all = found.all ++ p ∷ [];
  }

  -- The words of the file of propagated inputs, if there is one.
  abbrev pub propagates : Text → List Text
  propagates p = elim (propagated p) [ none ↦ [] | some text ↦ fields text ]

  -- `walk`, on fuel for the depth of its recursion.
  unfoldable pub walk : ℕ → Text → InputPaths → InputPaths
  unfolding depth_walk add_path
  walk = depth_walk (λ found. found.all) add_path propagates

  unfoldable pub discover_input_paths : ℕ → List Text → InputPaths
  unfolding walk
  discover_input_paths fuel paths =
      walk_each (λ found. found.all) add_path propagates (walk fuel) paths no_inputs
