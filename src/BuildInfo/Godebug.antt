-- ===== src/BuildInfo/Godebug.antt =====
-- go/go2nix/pkg/buildinfo/godebug.go: //go:debug directives and the default GODEBUG. The go.mod,
-- which golang.org/x/mod parses, and the table of the toolchain are arguments, `none` where they
-- cannot be read.
pub mod Table
pub mod Precedence
pub mod Directive
use go2nix.Base.{
  is_digit, read_digits, max_int, ℕ, ◌+◌, ◌-◌, ◌*◌, ◌^◌, min, List, [], ◌∷◌, ◌++◌, Bool, true,
  false, not, ◌&&◌, ◌||◌, Option, none, some, Text, codes, text_eq, has_prefix, cut_prefix,
  trim_prefix, contains, cut, ◌==◌, leb, ltb, any, sort, Dict, lookup, insert, keys, Result, ok,
  err, if◌then◌else◌,
}
use go2nix.BuildInfo.Spaces.{trim_space}
use go2nix.BuildInfo.Godebug.Table.{Entry, godebug_table}

-- `Godebug`
pub record Setting : Type 0 where
  pub key : Text
  pub value : Text

pub data DirectiveError : Type 0 where
  not_go_debug missing_key_value has_space_or_comma : DirectiveError

-- The text from its first blank or tab on, as `text[i:]`.
abbrev pub from_blank : Text → Option Text
from_blank [] = none
from_blank (c ∷ s) =
    let later = from_blank s in if (c == b' ') || (c == b'\t') then some (c ∷ s) else later

-- `strings.ContainsAny(s, " \t,")`
abbrev pub has_separator : Text → Bool
has_separator s = contains s b' ' || contains s b'\t' || contains s b','

abbrev pub check_pair : Option (Text × Text) → Result DirectiveError Setting
check_pair none = err missing_key_value
check_pair (some (k, v)) =
    if has_separator k || has_separator v
    then err has_space_or_comma
    else ok (record { key = k; value = v })

unfoldable pub parse_go_debug : Text → Result DirectiveError Setting
parse_go_debug text =
    if not (has_prefix text (codes "//go:debug"))
    then err not_go_debug
    else elim (from_blank text) [
      | none ↦
          if text_eq (trim_space text) (codes "//go:debug")
          then err missing_key_value
          else err not_go_debug
      | some rest ↦ check_pair (cut (trim_space rest) b'=')
    ]

-- The loops of parseGodebugs over the lists of directives of a package, from go/build.
unfoldable pub parse_directives : List Text → List Setting
unfolding parse_go_debug
parse_directives [] = []
parse_directives (text ∷ rest) = elim (parse_go_debug text) [
  | err _ ↦ parse_directives rest
  | ok s ↦ s ∷ parse_directives rest
]

unfoldable pub parse_godebugs : (own test xtest : List Text) → Bool → List Setting
unfolding parse_directives
parse_godebugs own test xtest of_test =
    parse_directives own
    ++ (if of_test then parse_directives test ++ parse_directives xtest else [])

-- parseGoMinor: `none` for -1. Atoi gives the largest int for a number that is too large.
abbrev pub minor_digits : Option Text → Option ℕ
minor_digits none = none
minor_digits (some []) = none
minor_digits (some (c ∷ s)) =
    if is_digit c then some (min (read_digits 0 (c ∷ s)) max_int) else none

unfoldable pub parse_go_minor : Text → Option ℕ
parse_go_minor v = minor_digits (cut_prefix v (codes "1."))

-- Fips140Enabled of buildinfo.go.
abbrev pub fips140_enabled : Text → Bool
fips140_enabled v = not (text_eq v []) && not (text_eq v (codes "off"))

pub record GoModFile : Type 0 where
  pub go_version : Option Text
  pub godebug : List Setting

abbrev pub is_default : Setting → Bool
is_default gd = text_eq gd.key (codes "default")

abbrev pub or_else : Option ℕ → ℕ → ℕ
or_else none n = n
or_else (some m) n = m

-- The loop that looks for `default=`.
unfoldable pub base_minor : List Setting → ℕ → ℕ
unfolding parse_go_minor
base_minor [] minor = minor
base_minor (gd ∷ rest) minor = base_minor rest (
    if is_default gd
    then or_else (parse_go_minor (trim_prefix gd.value (codes "go"))) minor
    else minor)

abbrev pub predates : Option ℕ → ℕ → Bool
predates none changed = false
predates (some toolchain) changed = ltb toolchain changed

abbrev pub has_retired : Option ℕ → ℕ → Bool
has_retired none removed = true
has_retired (some toolchain) removed = leb removed toolchain

-- Whether an entry counts: the conditions of the loop over the table. `own` tells that the table is
-- the toolchain's own.
unfoldable pub counts : Bool → Option ℕ → ℕ → Entry → Bool
counts own toolchain minor entry =
    if leb entry.changed minor
    then false
    else if own
    then true
    else if predates toolchain entry.changed
    then false
    else not (ltb 0 entry.removed && has_retired toolchain entry.removed)

unfoldable pub add_defaults : Bool → Option ℕ → ℕ → List Entry → Dict Text → Dict Text
add_defaults own toolchain minor [] m = m
add_defaults own toolchain minor (entry ∷ rest) m =
    add_defaults own toolchain minor rest
      (if counts own toolchain minor entry then insert entry.name entry.old m else m)

-- The loop that applies the other directives.
unfoldable pub apply_directives : List Setting → Dict Text → Dict Text
apply_directives [] m = m
apply_directives (gd ∷ rest) m =
    apply_directives rest (if is_default gd then m else insert gd.key gd.value m)

abbrev pub own_or_copy : Option (List Entry) → List Entry
own_or_copy none = godebug_table
own_or_copy (some table) = table

abbrev pub is_own : Option (List Entry) → Bool
is_own none = false
is_own (some _) = true

-- The map `m`, for the minor version of the go directive.
unfoldable pub settings : ℕ → List Setting → Text → Option ℕ → Option (List Entry) → Dict Text
unfolding base_minor add_defaults counts apply_directives
settings minor directives fips140 toolchain table =
    let base = base_minor directives minor in
    let defaults = add_defaults (is_own table) toolchain base (own_or_copy table) [] in
    apply_directives directives
      (if fips140_enabled fips140 then insert (codes "fips140") (codes "on") defaults else defaults)

abbrev pub value_of : Option Text → Text
value_of none = []
value_of (some v) = v

-- The entries of the map for a list of keys, with commas between them.
abbrev pub join_settings : Dict Text → List Text → Text
join_settings m [] = []
join_settings m (k ∷ []) = k ++ (codes "=" ++ value_of (lookup k m))
join_settings m (k ∷ j ∷ ks) =
    k ++ (codes "=" ++ (value_of (lookup k m) ++ (codes "," ++ join_settings m (j ∷ ks))))

abbrev pub version_or_default : Option Text → Text
version_or_default none = codes "1.16"
version_or_default (some v) = v

unfoldable pub default_godebug :
    Option GoModFile → List Setting → Text → Text → Option (List Entry) → Text
unfolding settings sort parse_go_minor
default_godebug none directives fips140 toolchain table = []
default_godebug (some mf) directives fips140 toolchain table =
    elim (parse_go_minor (version_or_default mf.go_version)) [
      | none ↦ []
      | some minor ↦
          let m =
            settings minor (mf.godebug ++ directives) fips140
              (parse_go_minor (trim_prefix toolchain (codes "go"))) table in
          join_settings m (sort (keys m))
    ]
