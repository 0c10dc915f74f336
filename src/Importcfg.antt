-- ===== src/Importcfg.antt =====
-- go/go2nix/pkg/compile/manifest.go: the merging of importcfg files. What opening, reading and
-- closing a part answers is an argument.
pub mod Lines
pub mod Merged
mod Tests
use go2nix.Base.{
  ℕ, List, [], ◌∷◌, ◌++◌, Bool, true, false, ◌||◌, Text, codes, has_prefix, cons_head, ◌==◌, Result,
  ok, err, ◌>>=◌, if◌then◌else◌,
}

-- A part: it cannot be opened, not be scanned to its end, not be closed, or it has a content.
pub data Part : Type 0 where
  missing broken not_closed : Part
  content : (text : Text) → Part

pub data MergeError : Type 0 where
  not_created not_written : MergeError
  part_failed : (part : Part) → MergeError

-- `bufio.ScanLines`
unfoldable pub raw_lines : Text → List Text
raw_lines [] = []
raw_lines (c ∷ s) = let rest = raw_lines s in if c == 10 then [] ∷ rest else cons_head c rest

unfoldable pub drop_cr : Text → Text
drop_cr [] = []
drop_cr (c ∷ []) = if c == 13 then [] else c ∷ []
drop_cr (c ∷ d ∷ s) = c ∷ drop_cr (d ∷ s)

unfoldable pub scan_lines : List Text → List Text
unfolding drop_cr
scan_lines [] = []
scan_lines (l ∷ rest) = drop_cr l ∷ scan_lines rest

unfoldable pub is_directive : Text → Bool
is_directive line = has_prefix line (codes "packagefile ") || has_prefix line (codes "importmap ")

-- The loop over the lines of a part; `written` is what the writer has taken.
unfoldable pub write_kept : Text → List Text → Text
unfolding is_directive
write_kept written [] = written
write_kept written (line ∷ rest) =
    write_kept (if is_directive line then written ++ (line ++ (10 ∷ [])) else written) rest

-- The loop over the parts.
unfoldable pub merge_parts : Text → List Part → Result MergeError Text
unfolding write_kept scan_lines raw_lines
merge_parts written [] = ok written
merge_parts written (content text ∷ parts) =
    merge_parts (write_kept written (scan_lines (raw_lines text))) parts
merge_parts written (missing ∷ parts) = err (part_failed missing)
merge_parts written (broken ∷ parts) = err (part_failed broken)
merge_parts written (not_closed ∷ parts) = err (part_failed not_closed)

abbrev pub flush : Bool → Text → Result MergeError Text
flush true written = ok written
flush false written = err not_written

-- MergeImportcfg, with the content of the merged file.
unfoldable pub merge_importcfg : Bool → Bool → List Part → Result MergeError Text
unfolding merge_parts
merge_importcfg created flushed parts =
    if created then merge_parts [] parts >>= flush flushed else err not_created
