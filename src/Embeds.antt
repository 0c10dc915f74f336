-- ===== src/Embeds.antt =====
-- MergeEmbedCfg of go/go2nix/pkg/gofiles/gofiles.go: the configurations of embedded files of a package
-- and of its tests, made one.
mod Tests
pub mod Merged
use go2nix.Base.{
  List, [], ◌∷◌, Bool, true, false, ◌&&◌, Option, none, some, Text, text_eq, Dict, lookup, insert,
  Result, ok, err, ◌>>=◌, if◌then◌else◌,
}
use go2nix.Manifest.{EmbedCfg}

pub data MergeError : Type 0 where
  inconsistent_pattern : (pattern : Text) → MergeError
  inconsistent_file : (file : Text) → MergeError

abbrev pub slice_equal : List Text → List Text → Bool
slice_equal [] [] = true
slice_equal [] (_ ∷ _) = false
slice_equal (_ ∷ _) [] = false
slice_equal (s ∷ a) (t ∷ b) = text_eq s t && slice_equal a b

-- Whether a key has no value yet, or the same one.
abbrev pub agrees : {V : Type 0} → (V → V → Bool) → V → Option V → Bool
agrees same v none = true
agrees same v (some w) = same w v

-- The loop over the entries of a map, with the error for a key that has another value.
unfoldable pub add_entries :
    {V : Type 0}
    → (V → V → Bool)
    → (Text → MergeError)
    → Dict V
    → Dict V
    → Result MergeError (Dict V)
add_entries same failed [] merged = ok merged
add_entries same failed ((k, v) ∷ rest) merged =
    let added = add_entries same failed rest (insert k v merged) in
    if agrees same v (lookup k merged) then added else err (failed k)

unfoldable pub add_cfg : EmbedCfg → EmbedCfg → Result MergeError EmbedCfg
unfolding add_entries
add_cfg cfg merged = do
  patterns ← add_entries slice_equal inconsistent_pattern cfg.patterns merged.patterns
  files ← add_entries text_eq inconsistent_file cfg.files merged.files
  ok (record { patterns = patterns; files = files })

abbrev pub no_embeds : EmbedCfg
no_embeds = record { patterns = []; files = [] }

abbrev pub add_given : Option EmbedCfg → EmbedCfg → Result MergeError EmbedCfg
unfolding add_cfg
add_given none merged = ok merged
add_given (some cfg) merged = add_cfg cfg merged

abbrev pub merge_given : Option EmbedCfg → Option EmbedCfg → Result MergeError (Option EmbedCfg)
unfolding add_cfg
merge_given a b = do first ← add_given a no_embeds; both ← add_given b first; ok (some both)

unfoldable pub merge_embed_cfg :
    Option EmbedCfg → Option EmbedCfg → Result MergeError (Option EmbedCfg)
unfolding add_cfg
merge_embed_cfg none none = ok none
merge_embed_cfg none (some b) = merge_given none (some b)
merge_embed_cfg (some a) none = merge_given (some a) none
merge_embed_cfg (some a) (some b) = merge_given (some a) (some b)
