-- ===== src/Embeds/Tests.antt =====
-- Two configurations that can be merged, and two that differ at a pattern.
use go2nix.Base.{[], ◌∷◌, ◌≡◌, refl, ◌⊎◌, some, Text, codes, ok, err}
use go2nix.Manifest.{EmbedCfg}
use go2nix.Embeds.{inconsistent_pattern, inconsistent_file, merge_embed_cfg}
use go2nix.Embeds.Merged.{Joined, Differ, merge_embed_cfg_cases}

abbrev production : EmbedCfg
production = record {
  patterns = (codes "*.txt", codes "a.txt" ∷ []) ∷ [];
  files = (codes "a.txt", codes "/src/a.txt") ∷ [];
}

abbrev of_tests : EmbedCfg
of_tests = record {
  patterns = (codes "data", codes "data/x" ∷ []) ∷ (codes "*.txt", codes "a.txt" ∷ []) ∷ [];
  files = (codes "data/x", codes "/src/data/x") ∷ (codes "a.txt", codes "/src/a.txt") ∷ [];
}

other_pattern :
    merge_embed_cfg
      (some production)
      (some (record of_tests { patterns = (codes "*.txt", []) ∷ [] }))
    ≡ err (inconsistent_pattern (codes "*.txt"))
unfolding merge_embed_cfg
other_pattern = refl

merge_embed_cfg_cases_example :
    ((c : EmbedCfg) × (merge_embed_cfg (some production) (some of_tests) ≡ ok (some c))
      × Joined of_tests.patterns production.patterns c.patterns
      × Joined of_tests.files production.files c.files)
    ⊎ ((k : Text) × (merge_embed_cfg (some production) (some of_tests)
          ≡ err (inconsistent_pattern k))
        × Differ of_tests.patterns production.patterns k)
    ⊎ ((k : Text) × (merge_embed_cfg (some production) (some of_tests) ≡ err (inconsistent_file k))
        × Differ of_tests.files production.files k)
merge_embed_cfg_cases_example =
    merge_embed_cfg_cases production of_tests (refl, tt) (refl, tt) (refl, (refl, tt))
      (refl, (refl, tt))
