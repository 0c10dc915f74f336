-- ===== src/Scripts.antt =====
-- go/go2nix/pkg/resolve/builder.go: the bash scripts that build derivations, and their quoting.
pub mod Quote
mod Tests
use go2nix.Base.{ℕ, List, [], ◌∷◌, ◌++◌, Bool, Text, codes, text_eq, flat_map, ◌==◌, if◌then◌else◌}

-- `strings.ReplaceAll(s, "'", "'\\''")` at a character.
abbrev pub quote_char : ℕ → Text
quote_char c = if c == b'\'' then codes "'\\''" else c ∷ []

unfoldable pub shell_quote : Text → Text
shell_quote s = codes "'" ++ (flat_map quote_char s ++ codes "'")

-- The lines that are written only where a value is set.
unfoldable pub cacert_line : Text → Text
unfolding shell_quote
cacert_line path =
    if text_eq path []
    then []
    else codes "export SSL_CERT_FILE=" ++ (shell_quote path ++ codes "\n")

unfoldable pub netrc_lines : Text → Text
unfolding shell_quote
netrc_lines path =
    if text_eq path []
    then []
    else codes "cp "
      ++ (shell_quote path ++ codes " \"$HOME/.netrc\"\nchmod 600 \"$HOME/.netrc\"\n")

unfoldable pub download_line : Text → Text → Text → Text
unfolding shell_quote
download_line go fetch_path version =
    shell_quote go
    ++ (codes " mod download "
        ++ (shell_quote (fetch_path ++ (codes "@" ++ version)) ++ codes "\n"))

unfoldable pub path_line : Text → Text
unfolding shell_quote
path_line coreutils_dir = codes "export PATH=" ++ (shell_quote coreutils_dir ++ codes "/bin\n")

unfoldable pub fod_script :
    (go coreutils_dir fetch_path version dir_suffix cacert netrc : Text) → Text
unfolding shell_quote download_line path_line cacert_line netrc_lines
fod_script go coreutils_dir fetch_path version dir_suffix cacert netrc =
    codes "set -euo pipefail\nexport HOME=\"$TMPDIR\"\n"
    ++ (path_line coreutils_dir
        ++ (codes
              "export GOMODCACHE=\"$TMPDIR/modcache\"\nexport GOSUMDB=off\nexport GONOSUMCHECK='*'\n"
            ++ (cacert_line cacert
                ++ (netrc_lines netrc
                    ++ (download_line go fetch_path version
                        ++ (codes "cp -r \"$TMPDIR/modcache/\""
                            ++ (shell_quote dir_suffix ++ codes " \"$out\"\n")))))))

-- ImportcfgPlaceholder of compile/manifest.go.
abbrev pub importcfg_placeholder : Text
importcfg_placeholder = codes "@@IMPORTCFG@@"

unfoldable pub compile_script : Text → Text
unfolding shell_quote
compile_script go2nix_bin =
    codes "set -euo pipefail\nexport HOME=\"$TMPDIR\"\nmkdir -p \"$out\"\n\n"
    ++ (codes "cat \"$importcfg_entriesPath\" > \"$NIX_BUILD_TOP/importcfg\"\n\n"
        ++ (codes "printf '%s\\n' \"${compileManifestJSON//"
            ++ (importcfg_placeholder
                ++ (codes
                      "/$NIX_BUILD_TOP/importcfg}\" > \"$NIX_BUILD_TOP/compile-manifest.json\"\n\n"
                    ++ (codes "srcdir=\"$modSrc/$relDir\"\n\n"
                        ++ (shell_quote go2nix_bin
                            ++ (codes
                                  " compile-package \\\n  --manifest \"$NIX_BUILD_TOP/compile-manifest.json\""
                                ++ (codes
                                      " \\\n  --import-path \"$importPath\" \\\n  --src-dir \"$srcdir\" \\\n  --output \"$out/pkg.a\""
                                    ++ (codes
                                          " \\\n  --trim-path \"$NIX_BUILD_TOP\" \\\n  ${pflag:+--p \"$pflag\"}"
                                        ++ codes
                                            " \\\n  ${goVersion:+--go-version \"$goVersion\"}\n")))))))))

unfoldable pub link_script : (go pname build_mode : Text) → Text
unfolding shell_quote
link_script go pname build_mode =
    codes "set -euo pipefail\nexport HOME=\"$TMPDIR\"\nmkdir -p \"$out/bin\"\n\n"
    ++ (codes "cat \"$importcfg_entriesPath\" > \"$NIX_BUILD_TOP/importcfg\"\n\n"
        ++ (codes "export GOROOT=\"$goroot\"\n\n"
            ++ (shell_quote go
                ++ (codes " tool link -o \"$out/bin/\""
                    ++ (shell_quote pname
                        ++ (codes
                              " \\\n  -importcfg \"$NIX_BUILD_TOP/importcfg\" \\\n  -buildid= \\\n  -buildmode="
                            ++ (shell_quote build_mode
                                ++ (codes
                                      " \\\n  ${extld:+-extld \"$extld\"} \\\n  ${sanitizerLinkFlags:+$sanitizerLinkFlags}"
                                    ++ (codes
                                          " \\\n  ${godebugDefault:+-X=runtime.godebugDefault=$godebugDefault}"
                                        ++ codes
                                            " \\\n  ${ldflags:+$ldflags} \\\n  \"$mainPkg/pkg.a\"\n")))))))))

-- The loop over the placeholders.
unfoldable pub copy_lines : List Text → Text
unfolding shell_quote
copy_lines [] = []
copy_lines (placeholder ∷ rest) =
    codes "cp " ++ (shell_quote placeholder ++ (codes "/bin/* \"$out/bin/\"\n" ++ copy_lines rest))

unfoldable pub collect_script : List Text → Text
unfolding copy_lines
collect_script placeholders =
    codes "set -euo pipefail\nmkdir -p \"$out/bin\"\n" ++ copy_lines placeholders
