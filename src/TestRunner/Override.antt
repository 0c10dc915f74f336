-- ===== src/TestRunner/Override.antt =====
-- overrideImportCfgEntry of go/go2nix/pkg/testrunner/testrunner.go, on the content of the file.
pub mod Entries
use go2nix.Base.{List, [], ◌∷◌, ◌++◌, Text, codes, has_prefix, if◌then◌else◌}
use go2nix.Importcfg.{raw_lines, scan_lines}
use go2nix.Resolver.Config.{join}

abbrev pub entry_prefix : Text → Text
entry_prefix import_path = codes "packagefile " ++ (import_path ++ codes "=")

abbrev pub entry : Text → Text → Text
entry import_path archive = entry_prefix import_path ++ archive

-- The lines that are kept.
unfoldable pub other_lines : Text → List Text → List Text
other_lines import_path [] = []
other_lines import_path (line ∷ rest) =
    if has_prefix line (entry_prefix import_path)
    then other_lines import_path rest
    else line ∷ other_lines import_path rest

unfoldable pub override_entry : Text → Text → Text → Text
unfolding other_lines scan_lines raw_lines
override_entry import_path archive content =
    join
      (other_lines import_path (scan_lines (raw_lines content)) ++ entry import_path archive ∷ [])
      (10 ∷ [])
    ++ (10 ∷ [])
