-- ===== src/CgoFlags/Tables/PkgConfig.antt =====
-- go/go2nix/pkg/compile/cgosecurity.go: the pkg-config flag tables, in the order of the source.
use go2nix.Base.{List, [], ◌∷◌}
use go2nix.CgoFlags.Regex.{
  Regex, word, one_of, ◌▸◌, class, star, plus, any_char, digit, not_at_dash, word_char, word_start,
}

abbrev pub valid_pkg_config_flags : List Regex
valid_pkg_config_flags =
    (word "--atleast-pkgconfig-version="
      ▸ plus digit
      ▸ word "."
      ▸ plus digit
      ▸ word "."
      ▸ plus digit)
    ∷ (word "--atleast-version=" ▸ plus digit ▸ word "." ▸ plus digit ▸ word "." ▸ plus digit)
    ∷ word "--cflags-only-I"
    ∷ word "--cflags"
    ∷ word "--define-prefix"
    ∷ (word "--define-variable=" ▸ class word_start ▸ star word_char ▸ word "=" ▸ star not_at_dash)
    ∷ word "--digraph"
    ∷ word "--dont-define-prefix"
    ∷ word "--dont-relocate-paths"
    ∷ word "--dump-personality"
    ∷ word "--env-only"
    ∷ word "--errors-to-stdout"
    ∷ (word "--exact-version=" ▸ plus digit ▸ word "." ▸ plus digit ▸ word "." ▸ plus digit)
    ∷ word "--exists"
    ∷ (word "--fragment-filter=" ▸ class word_start ▸ star word_char)
    ∷ word "--ignore-conflicts"
    ∷ word "--internal-cflags"
    ∷ word "--keep-system-cflags"
    ∷ word "--keep-system-libs"
    ∷ word "--libs-only-l"
    ∷ word "--libs-only-L"
    ∷ word "--libs"
    ∷ word "--list-all"
    ∷ word "--list-package-names"
    ∷ (word "--max-version=" ▸ plus digit ▸ word "." ▸ plus digit ▸ word "." ▸ plus digit)
    ∷ (word "--maximum-traverse-depth=" ▸ plus digit)
    ∷ word "--modversion"
    ∷ word "--msvc-syntax"
    ∷ word "--no-cache"
    ∷ word "--no-provides"
    ∷ word "--no-uninstalled"
    ∷ word "--path"
    ∷ (word "--personality=" ▸ one_of ("triplet" ∷ "filename" ∷ []))
    ∷ (word "--prefix-variable=" ▸ class word_start ▸ star word_char)
    ∷ word "--print-errors"
    ∷ word "--print-provides"
    ∷ word "--print-requires-private"
    ∷ word "--print-requires"
    ∷ word "--print-variables"
    ∷ word "--pure"
    ∷ word "--shared"
    ∷ word "--short-errors"
    ∷ word "--silence-errors"
    ∷ word "--simulate"
    ∷ word "--static"
    ∷ word "--uninstalled"
    ∷ word "--validate"
    ∷ (word "--variable=" ▸ class word_start ▸ star word_char)
    ∷ (word "--with-path=" ▸ class not_at_dash ▸ star any_char)
    ∷ []
