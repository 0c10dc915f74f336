-- ===== src/NixDrv/Derivation.antt =====
-- go/go2nix/pkg/nixdrv/derivation.go: a derivation and the methods that build it. A method returns
-- the derivation that it has changed; its maps are read through no other name.
pub mod Merge
pub mod Inputs
use go2nix.Base.{
  List, [], ◌∷◌, ◌++◌, Bool, Option, none, some, Text, codes, text_eq, trim_prefix, any, Dict,
  lookup, insert, keys, ℕ, if◌then◌else◌,
}

mutual
  pub data InputDrv : Type 0 where
    input_drv : (outputs : List Text) → (dynamic_outputs : DynamicOutputs) → InputDrv

  pub data DynamicOutputs : Type 0 where
    no_dynamic : DynamicOutputs
    dynamic : Text → InputDrv → DynamicOutputs → DynamicOutputs

pub record Output : Type 0 where
  pub hash_algo : Text
  pub method : Text
  pub hash : Text
  pub path : Text

pub record Derivation : Type 0 where
  pub name : Text
  pub system : Text
  pub builder : Text
  pub args : List Text
  pub env : Dict Text
  pub input_drvs : Dict InputDrv
  pub input_srcs : Dict (Unit {0})
  pub outputs : Dict Output

abbrev pub outputs_of : InputDrv → List Text
outputs_of (input_drv outputs _) = outputs

unfoldable pub new_derivation : Text → Text → Text → Derivation
new_derivation name system builder = record {
  name = name;
  system = system;
  builder = builder;
  args = [];
  env = [];
  input_drvs = [];
  input_srcs = [];
  outputs = [];
}

unfoldable pub add_arg : Text → Derivation → Derivation
add_arg arg d = record d { args = d.args ++ arg ∷ [] }

unfoldable pub set_env : Text → Text → Derivation → Derivation
set_env key value d = record d { env = insert key value d.env }

unfoldable pub add_ca_output : Text → Text → Text → Derivation → Derivation
add_ca_output name algo method d = record d {
  outputs =
      insert name (record { hash_algo = algo; method = method; hash = []; path = [] }) d.outputs;
}

unfoldable pub add_fod_output : Text → Text → Text → Derivation → Derivation
add_fod_output name method hash d = record d {
  outputs =
      insert name (record { hash_algo = []; method = method; hash = hash; path = [] }) d.outputs;
}

-- The loop of mergeUnique over `b`; `seen` holds the members of `a`.
unfoldable pub merge_unique : List Text → List Text → List Text
merge_unique a [] = a
merge_unique a (s ∷ b) =
    let kept = merge_unique a b in
    let grown = merge_unique (a ++ s ∷ []) b in if any (text_eq s) a then kept else grown

abbrev pub merge_outputs : List Text → Option InputDrv → InputDrv
merge_outputs outputs none = input_drv outputs no_dynamic
merge_outputs outputs (some (input_drv old dynamics)) =
    input_drv (merge_unique old outputs) dynamics

unfoldable pub add_input_drv : Text → List Text → Derivation → Derivation
unfolding merge_unique
add_input_drv drv_path outputs d = record d {
  input_drvs = insert drv_path (merge_outputs outputs (lookup drv_path d.input_drvs)) d.input_drvs;
}

unfoldable pub add_input_src : Text → Derivation → Derivation
add_input_src path d = record d { input_srcs = insert path tt d.input_srcs }

-- `storepath.StoreDir` is /nix/store.
unfoldable pub store_base_name : Text → Text
store_base_name path = trim_prefix path (codes "/nix/store/")
