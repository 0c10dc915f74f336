-- ===== src/BuildInfo/Tests.antt =====
-- The theorems on go/go2nix/pkg/buildinfo at concrete inputs.
use go2nix.Base.{
  List, [], ◌∷◌, ◌++◌, ◌≡◌, refl, map, Option, none, some, Text, codes, lookup, All, Memᴰ, ok, err,
}
use go2nix.BuildInfo.Godebug.{
  Setting, parse_go_debug, missing_key_value, parse_directives, or_else, own_or_copy, is_own,
  settings, default_godebug,
}
use go2nix.BuildInfo.Godebug.Precedence.{
  first_of, last_value, last_default, last_counting, fips140_value, settings_precedence,
}
use go2nix.BuildInfo.Godebug.Directive.{write_directive, parse_directives_written}
use go2nix.BuildInfo.Info.{
  ModDep, mod_dep, dep_replaced, BuildSettings, debug_mod_from_dep, to_debug_settings, read_go_sum,
}
use go2nix.BuildInfo.Info.Sums.{last_module}
use go2nix.BuildInfo.Info.Order.{Sublist, setting_keys, key_order, IsGiven, to_debug_settings_order}

abbrev set : Text → Text → Setting
set key value = record { key = key; value = value }

directive :
    parse_go_debug (codes "//go:debug\t panicnil=1 ") ≡ ok (set (codes "panicnil") (codes "1"))
unfolding parse_go_debug
directive = refl

directive_without_pair : parse_go_debug (codes "//go:debug panicnil") ≡ err missing_key_value
unfolding parse_go_debug
directive_without_pair = refl

abbrev mod_lines : List Setting
mod_lines = set (codes "default") (codes "go1.21") ∷ set (codes "panicnil") (codes "1") ∷ []

abbrev directives : List Setting
directives = set (codes "panicnil") (codes "0") ∷ set (codes "default") (codes "go1.26") ∷ []

-- The copy of the table, for Go 1.26 driven by Go 1.27.
defaults :
    default_godebug
      (some (record { go_version = some (codes "1.20"); godebug = mod_lines }))
      directives
      (codes "latest")
      (codes "go1.27.0")
      none
    ≡ codes "fips140=on,panicnil=0,tracebacklabels=0,x509sslcertoverrideplatform=0"
unfolding default_godebug
defaults = refl

settings_precedence_example :
    lookup (codes "panicnil") (settings 20 (mod_lines ++ directives) (codes "off") (some 26) none)
    ≡ first_of (last_value (codes "panicnil") directives) (
        first_of (last_value (codes "panicnil") mod_lines) (
          first_of (fips140_value (codes "off") (codes "panicnil")) (
            last_counting
              (is_own none)
              (some 26)
              (or_else (last_default (mod_lines ++ directives)) 20)
              (codes "panicnil")
              (own_or_copy none))))
settings_precedence_example =
    settings_precedence 20 mod_lines directives (codes "off") (some 26) none (codes "panicnil")

abbrev two : List Setting
two = set (codes "panicnil") (codes "1") ∷ set (codes "x") (codes "a=b") ∷ []

parse_directives_written_example : parse_directives (map write_directive two) ≡ two
parse_directives_written_example = parse_directives_written two (
    (
      (
        (
          (refl, refl),
          (
            (refl, refl),
            (
              (refl, refl),
              ((refl, refl), ((refl, refl), ((refl, refl), ((refl, refl), ((refl, refl), tt))))),
            ),
          ),
        ),
        (refl, tt),
      ),
      ((((refl, refl), tt), (refl, (refl, (refl, tt)))), tt),
    ))

abbrev sum_lines : Option (List Text)
sum_lines = some (
    codes "d v2/go.mod h1:m"
    ∷ codes "d v2 h1:old"
    ∷ codes " d  v2\th1:new"
    ∷ codes "// d v2 h1:comment"
    ∷ [])

abbrev chain : ModDep
chain = dep_replaced (codes "c") (codes "v1") (mod_dep (codes "d") (codes "v2"))

chain_sum :
    last_module (debug_mod_from_dep chain (read_go_sum sum_lines))
    ≡ (codes "d", codes "v2", codes "h1:new")
unfolding debug_mod_from_dep read_go_sum
chain_sum = refl

abbrev exe : BuildSettings
exe = record {
  build_mode = codes "exe";
  tags = [];
  default_godebug = [];
  cgo_enabled = codes "1";
  goarch = codes "amd64";
  goarch_level = codes "v1";
  gofips140 = codes "off";
  goos = codes "linux";
}

exe_settings :
    setting_keys (to_debug_settings exe)
    ≡ codes "-buildmode"
      ∷ codes "-compiler"
      ∷ codes "-trimpath"
      ∷ codes "CGO_ENABLED"
      ∷ codes "GOARCH"
      ∷ codes "GOOS"
      ∷ codes "GOAMD64"
      ∷ []
unfolding to_debug_settings
exe_settings = refl

to_debug_settings_order_example :
    Sublist (setting_keys (to_debug_settings exe)) (key_order exe)
    × All IsGiven (to_debug_settings exe)
    × Memᴰ (set (codes "-compiler") (codes "gc")) (to_debug_settings exe)
    × Memᴰ (set (codes "-trimpath") (codes "true")) (to_debug_settings exe)
to_debug_settings_order_example = to_debug_settings_order exe
