-- ===== src/NixDrv/Aterm.antt =====
-- go/go2nix/pkg/nixdrv/drvpath.go: a derivation as go-nix has it, its ATerm and its .drv path.
-- What go-nix computes is a parameter: `parse_any` of nixhash, which gives a hash's algorithm and
-- digest, and of its derivations `calculate_output_paths`, `write_derivation` and
-- `go_drv_path`, which is go-nix's DrvPath and then storepath.FromAbsolutePath on what it gives.
pub mod Fixed
pub mod Path
use go2nix.Base.{
  ℕ, List, [], ◌∷◌, ◌++◌, Bool, false, not, ◌&&◌, Option, none, some, Text, codes, text_eq, sort,
  Dict, lookup, insert, keys, Result, ok, err, ◌>>=◌, if◌then◌else◌,
}
use go2nix.NixDrv.Names.{hex}
use go2nix.NixDrv.Derivation.{Derivation, InputDrv, Output, outputs_of}

-- An output and a derivation of go-nix, without what is not set here.
pub record GoOutput : Type 0 where
  pub path : Text
  pub hash_algorithm : Text
  pub hash : Text

pub record GoDerivation : Type 0 where
  pub name : Text
  pub outputs : Dict GoOutput
  pub input_sources : List Text
  pub input_derivations : Dict (List Text)
  pub platform : Text
  pub builder : Text
  pub arguments : List Text
  pub env : Dict Text

-- `nil_output` stands for the panic at an output path for an output that the derivation has not.
pub data AtermError : Type 0 where
  unsupported_method : (method : Text) → AtermError
  bad_hash : (sri : Text) → AtermError
  no_output_paths no_drv_path not_written : AtermError
  nil_output : (name : Text) → AtermError

abbrev pub sorted_outputs : Dict InputDrv → Dict (List Text)
sorted_outputs [] = []
sorted_outputs ((path, drv) ∷ rest) = (path, sort (outputs_of drv)) ∷ sorted_outputs rest

-- The prefix of the hash algorithm for a method, or `none` where the switch has no case for it.
abbrev pub method_prefix : Text → Option Text
method_prefix method =
    if text_eq method (codes "nar")
    then some (codes "r:")
    else if text_eq method (codes "flat")
    then some []
    else if text_eq method (codes "text")
    then some []
    else none

module _ (parse_any : Text → Option (Text × List ℕ)) where
  unfoldable pub parse_sri_hash : Text → Result AtermError (Text × Text)
  parse_sri_hash sri = elim (parse_any sri) [
    | none ↦ err (bad_hash sri)
    | some (algo, digest) ↦ ok (algo, hex digest)
  ]

  -- The output for a method with a prefix.
  unfoldable pub convert_hashed : Text → Output → Result AtermError GoOutput
  unfolding parse_sri_hash
  convert_hashed prefix o =
      if not (text_eq o.hash_algo [])
      then ok (record { path = []; hash_algorithm = prefix ++ o.hash_algo; hash = [] })
      else if not (text_eq o.hash [])
      then (parse_sri_hash o.hash >>= λ (algo, hash).
          ok (record { path = []; hash_algorithm = prefix ++ algo; hash = hash }))
      else ok (record { path = []; hash_algorithm = []; hash = [] })

  unfoldable pub convert_output : Output → Result AtermError GoOutput
  unfolding convert_hashed
  convert_output o = elim (method_prefix o.method) [
    | some prefix ↦ convert_hashed prefix o
    | none ↦
        if text_eq o.method []
        then ok (record { path = o.path; hash_algorithm = []; hash = [] })
        else err (unsupported_method o.method)
  ]

  unfoldable pub convert_outputs : Dict Output → Result AtermError (Dict GoOutput)
  unfolding convert_output
  convert_outputs [] = ok []
  convert_outputs ((name, o) ∷ rest) = do
    converted ← convert_output o
    others ← convert_outputs rest
    ok ((name, converted) ∷ others)

  unfoldable pub to_go_nix_derivation : Derivation → Result AtermError GoDerivation
  unfolding convert_outputs sort
  to_go_nix_derivation d = do
    outputs ← convert_outputs d.outputs
    ok (record {
      name = d.name;
      outputs = outputs;
      input_sources = sort (keys d.input_srcs);
      input_derivations = sorted_outputs d.input_drvs;
      platform = d.system;
      builder = d.builder;
      arguments = d.args;
      env = d.env;
    })

abbrev pub has_hash : Option GoOutput → Bool
has_hash none = false
has_hash (some o) = not (text_eq o.hash_algorithm []) && not (text_eq o.hash [])

-- Whether there is one output, and it is `out` with a hash.
abbrev pub single_with_hash : Dict GoOutput → Bool
single_with_hash [] = false
single_with_hash (o ∷ []) = has_hash (lookup (codes "out") (o ∷ []))
single_with_hash (_ ∷ _ ∷ _) = false

unfoldable pub is_fod : GoDerivation → Bool
is_fod d = single_with_hash d.outputs

-- The loop that fills in the output paths, in the outputs and in the environment.
unfoldable pub fill_paths : Dict Text → GoDerivation → Result AtermError GoDerivation
fill_paths [] d = ok d
fill_paths ((name, path) ∷ rest) d = elim (lookup name d.outputs) [
  | none ↦ err (nil_output name)
  | some o ↦ fill_paths rest (record d {
    outputs = insert name (record o { path = path }) d.outputs;
    env = insert name path d.env;
  })
]

module _ (calculate_output_paths : GoDerivation → Option (Dict Text)) where
  unfoldable pub fill_fod : GoDerivation → Result AtermError GoDerivation
  unfolding is_fod fill_paths
  fill_fod d =
      if is_fod d
      then elim (calculate_output_paths d) [
        | none ↦ err no_output_paths
        | some paths ↦ fill_paths paths d
      ]
      else ok d

  module _ (parse_any : Text → Option (Text × List ℕ)) where
    unfoldable pub drv_path :
        {P : Type 0} → (GoDerivation → Option P) → Derivation → Result AtermError P
    unfolding to_go_nix_derivation fill_fod
    drv_path go_drv_path d = do
      converted ← to_go_nix_derivation parse_any d
      filled ← fill_fod converted
      elim (go_drv_path filled) [ none ↦ err no_drv_path | some path ↦ ok path ]

    abbrev pub references : GoDerivation → List Text
    references d = sort (d.input_sources ++ keys d.input_derivations)

    -- The text of the .drv file and the store paths that it refers to.
    unfoldable pub aterm :
        (GoDerivation → Option Text) → Derivation → Result AtermError (Text × List Text)
    unfolding to_go_nix_derivation fill_fod sort
    aterm write_derivation d = do
      converted ← to_go_nix_derivation parse_any d
      filled ← fill_fod converted
      elim (write_derivation filled) [
        | none ↦ err not_written
        | some text ↦ ok (text, references filled)
      ]
