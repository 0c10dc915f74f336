-- ===== src/NixDrv/Placeholder.antt =====
-- go/go2nix/pkg/nixdrv/placeholder.go: the placeholders for outputs that are not built yet. SHA-256
-- and go-nix's base 32 are parameters; a store path of go-nix is its name and its digest.
pub mod Distinguish
use go2nix.Base.{
  ℕ, List, ◌++◌, Option, none, some, Text, codes, text_eq, cut_suffix, Result, ok, err, ◌>>=◌,
  if◌then◌else◌,
}

pub record StorePath : Type 0 where
  pub name : Text
  pub digest : List ℕ

pub data PlaceholderError : Type 0 where
  not_a_derivation_path : StorePath → PlaceholderError

-- `HasSuffix` and `TrimSuffix`, which look at one suffix.
unfoldable pub drv_name : StorePath → Result PlaceholderError Text
drv_name sp = elim (cut_suffix sp.name (codes ".drv")) [
  | none ↦ err (not_a_derivation_path sp)
  | some name ↦ ok name
]

unfoldable pub output_path_name : Text → Text → Text
output_path_name drv output =
    if text_eq output (codes "out") then drv else drv ++ (codes "-" ++ output)

module _ (sha256 : Text → List ℕ) (nixbase32 : List ℕ → Text) where
  unfoldable pub hash_part : StorePath → Text
  hash_part sp = nixbase32 sp.digest

  unfoldable pub standard_output : Text → List ℕ
  standard_output output = sha256 (codes "nix-output:" ++ output)

  -- `clearText`
  unfoldable pub clear_text : StorePath → Text → Text → Text
  unfolding hash_part output_path_name
  clear_text drv_path drv output =
      codes "nix-upstream-output:"
      ++ (hash_part drv_path ++ (codes ":" ++ output_path_name drv output))

  unfoldable pub ca_output : StorePath → Text → Result PlaceholderError (List ℕ)
  unfolding clear_text drv_name
  ca_output drv_path output = do
    drv ← drv_name drv_path
    ok (sha256 (clear_text drv_path drv output))

  unfoldable pub render : List ℕ → Text
  render hash = codes "/" ++ nixbase32 hash
