-- ===== src/Scripts/Tests.antt =====
-- The scripts of go/go2nix/pkg/resolve/builder.go for concrete names.
use go2nix.Base.{[], ◌∷◌, ◌++◌, ◌≡◌, refl, Text, codes}
use go2nix.Scripts.{shell_quote, collect_script}
use go2nix.Scripts.Quote.{bare, read_word, in_front, shell_quote_word}

quoted_name : shell_quote (codes "it's") ≡ codes "'it'\\''s'"
unfolding shell_quote
quoted_name = refl

collected :
    collect_script (codes "/1abc" ∷ [])
    ≡ codes "set -euo pipefail\nmkdir -p \"$out/bin\"\ncp '/1abc'/bin/* \"$out/bin/\"\n"
unfolding collect_script shell_quote
collected = refl

quoted_command :
    read_word bare (shell_quote (codes "a'; rm -rf $HOME") ++ codes "/bin x")
    ≡ in_front (codes "a'; rm -rf $HOME") (read_word bare (codes "/bin x"))
quoted_command = shell_quote_word (codes "a'; rm -rf $HOME") (codes "/bin x")

abbrev go : Text
go = codes "/go/bin/go"
