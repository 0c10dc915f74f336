-- ===== src/Importcfg/Tests.antt =====
-- The theorem on MergeImportcfg in go/go2nix/pkg/compile/manifest.go at a concrete input.
use go2nix.Base.{List, [], ◌∷◌, ◌++◌, ◌≡◌, refl, true, Text, codes, ok, err, All}
use go2nix.Importcfg.{
  Part, content, broken, part_failed, raw_lines, drop_cr, scan_lines, is_directive, write_kept,
  merge_parts, merge_importcfg,
}
use go2nix.Importcfg.Merged.{HasContent, kept, lines_of, merge_importcfg-lines}

abbrev two_parts : List Part
two_parts =
    content (codes "# x" ++ (10 ∷ (codes "packagefile a=/a" ++ (10 ∷ []))))
    ∷ content (10 ∷ (codes "importmap b=c"))
    ∷ []

abbrev merged : Text
merged = codes "packagefile a=/a" ++ (10 ∷ (codes "importmap b=c" ++ (10 ∷ [])))

merge_importcfg-lines_example :
    All HasContent two_parts
    × (scan_lines (raw_lines merged) ≡ kept (lines_of two_parts))
    × (merge_importcfg true true (content merged ∷ []) ≡ ok merged)
unfolding merge_importcfg merge_parts write_kept scan_lines raw_lines drop_cr is_directive
merge_importcfg-lines_example =
    merge_importcfg-lines true true two_parts merged (refl, (refl, tt)) refl

broken_part : merge_importcfg true true (broken ∷ two_parts) ≡ err (part_failed broken)
unfolding merge_importcfg
broken_part = refl

-- A carriage return in front of the end of a line is dropped.
crlf : scan_lines (raw_lines (codes "a" ++ (13 ∷ 10 ∷ codes "b"))) ≡ codes "a" ∷ codes "b" ∷ []
unfolding scan_lines raw_lines drop_cr
crlf = refl
