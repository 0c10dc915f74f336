-- ===== src/CgoFlags/Check.antt =====
-- go/go2nix/pkg/compile/cgosecurity.go: checkFlags and its callers. The environment and
-- `regexp.Compile` for the patterns that a user sets are arguments.
use go2nix.Base.{
  List, [], ◌∷◌, ◌++◌, Bool, true, false, not, ◌&&◌, ◌||◌, Option, none, some, Text, codes, text_eq,
  has_prefix, contains, ◌==◌, split, leb, drop, any, all, Result, ok, err, ◌>>=◌, if◌then◌else◌,
}
use go2nix.CgoFlags.Regex.{Regex, full_match}
use go2nix.CgoFlags.Tables.{
  valid_compiler_flags, valid_compiler_flags_with_next_arg, invalid_linker_flags,
  valid_linker_flags, valid_linker_flags_with_next_arg, valid_pkg_config_flags,
}

pub data FlagError : Type 0 where
  bad_pattern : (variable : Text) → FlagError
  invalid_flag : (source arg : Text) → FlagError
  invalid_pair : (source arg next : Text) → FlagError
  without_argument : (source arg : Text) → FlagError
  external_linking : (flag : Text) → FlagError

-- `os.Getenv`, and the `FindString` of what `regexp.Compile` returns.
pub record Environment : Type 0 where
  pub getenv : Text → Text
  pub compile : Text → Option (Text → Text)

pub record Tables : Type 0 where
  pub invalid : List Regex
  pub valid : List Regex
  pub valid_next : List Text

unfoldable pub safe_arg : Text → Bool
safe_arg [] = false
safe_arg (c ∷ _) =
    (leb b'0' c && leb c b'9')
    || (leb b'A' c && leb c b'Z')
    || (leb b'a' c && leb c b'z')
    || (c == b'.')
    || (c == b'_')
    || (c == b'/')
    || leb 0x80 c

-- The pattern of a variable, if it is set.
abbrev pub load_pattern : Environment → Text → Result FlagError (Option (Text → Text))
load_pattern env variable =
    if text_eq (env.getenv variable) [] then ok none else elim (env.compile (env.getenv variable)) [
      | none ↦ err (bad_pattern variable)
      | some find ↦ ok (some find)
    ]

abbrev pub fits : Option (Text → Text) → Text → Bool
fits none arg = false
fits (some find) arg = text_eq (find arg) arg

-- What the body of the loop does with an argument: go on behind it, or behind the next one, or fail.
pub data Verdict : Type 0 where
  accept skip_next : Verdict
  refuse : FlagError → Verdict

abbrev pub push_state : Text
push_state = codes "-Wl,--push-state,"

abbrev pub behind_first : List Text → List Text
behind_first [] = []
behind_first (_ ∷ parts) = parts

-- The commands behind -Wl,--push-state are checked one by one.
unfoldable pub push_state_fits : Tables → Text → Bool
push_state_fits t arg =
    all
      (λ a.
        any (full_match (codes "-Wl," ++ a)) t.valid
        && not (any (full_match (codes "-Wl," ++ a)) t.invalid))
      (behind_first (split arg b','))

-- The loop over `valid`: `some true` is `continue Args` and `some false` is `goto Bad`.
unfoldable pub scan_valid : Tables → List Regex → Text → Option Bool
unfolding push_state_fits full_match
scan_valid t [] arg = none
scan_valid t (re ∷ rest) arg =
    let later = scan_valid t rest arg in
    if full_match arg re
    then some true
    else if has_prefix arg push_state
    then some (push_state_fits t arg)
    else later

-- The body of the loop over `validNext` for the entry that is equal to the argument.
unfoldable pub next_verdict : Text → Text → Option Text → Verdict
unfolding safe_arg
next_verdict source arg none = refuse (without_argument source arg)
next_verdict source arg (some next) =
    if safe_arg next
    then skip_next
    else if has_prefix arg (codes "-Wl,")
        && has_prefix next (codes "-Wl,")
        && safe_arg (drop 4 next)
        && not (contains (drop 4 next) b',')
    then skip_next
    else if text_eq arg (codes "-I")
        && (has_prefix next (codes "=") || has_prefix next (codes "$SYSROOT"))
        && safe_arg (drop 1 next)
    then skip_next
    else refuse (invalid_pair source arg next)

module _ (source : Text) (t : Tables) (allow disallow : Option (Text → Text)) where
  unfoldable pub verdict : Text → Option Text → Verdict
  verdict arg next =
      if fits disallow arg
      then refuse (invalid_flag source arg)
      else if fits allow arg
      then accept
      else if any (full_match arg) t.invalid
      then refuse (invalid_flag source arg)
      else elim (scan_valid t t.valid arg) [
        | some true ↦ accept
        | some false ↦ refuse (invalid_flag source arg)
        | none ↦
            if any (text_eq arg) t.valid_next
            then next_verdict source arg next
            else refuse (invalid_flag source arg)
      ]

  -- The loop `Args`.
  unfoldable pub check_args : List Text → Result FlagError (Unit {0})
  unfolding verdict scan_valid next_verdict
  check_args [] = ok tt
  check_args (arg ∷ []) = elim (verdict arg none) [
    | accept ↦ ok tt
    | skip_next ↦ ok tt
    | refuse e ↦ err e
  ]
  check_args (arg ∷ next ∷ rest) = elim (verdict arg (some next)) [
    | accept ↦ check_args (next ∷ rest)
    | skip_next ↦ check_args rest
    | refuse e ↦ err e
  ]

-- `checkFlags`
unfoldable pub check_flags :
    Environment → Text → Text → List Text → Tables → Bool → Result FlagError (Unit {0})
unfolding check_args
check_flags env name source list t check_overrides = do
  allow ←
      if check_overrides
      then load_pattern env (codes "CGO_" ++ (name ++ codes "_ALLOW"))
      else ok none
  disallow ←
      if check_overrides
      then load_pattern env (codes "CGO_" ++ (name ++ codes "_DISALLOW"))
      else ok none
  check_args source t allow disallow list

abbrev pub compiler_tables : Tables
compiler_tables = record {
  invalid = [];
  valid = valid_compiler_flags;
  valid_next = valid_compiler_flags_with_next_arg;
}

abbrev pub linker_tables : Tables
linker_tables = record {
  invalid = invalid_linker_flags;
  valid = valid_linker_flags;
  valid_next = valid_linker_flags_with_next_arg;
}

abbrev pub pkg_config_tables : Tables
pkg_config_tables = record { invalid = []; valid = valid_pkg_config_flags; valid_next = [] }

module _ (env : Environment) (name source : Text) (list : List Text) where
  unfoldable pub check_compiler_flags : Result FlagError (Unit {0})
  unfolding check_flags
  check_compiler_flags = check_flags env name source list compiler_tables true

  unfoldable pub check_linker_flags : Result FlagError (Unit {0})
  unfolding check_flags
  check_linker_flags = check_flags env name source list linker_tables true

  unfoldable pub check_pkg_config_flags : Result FlagError (Unit {0})
  unfolding check_flags
  check_pkg_config_flags = check_flags env name source list pkg_config_tables false

abbrev pub flto_check : List Text → Result FlagError (Unit {0})
flto_check [] = ok tt
flto_check (flag ∷ rest) =
    let later = flto_check rest in
    if has_prefix flag (codes "-flto") then err (external_linking flag) else later

unfoldable pub check_compiler_flags_for_internal_link :
    Environment → Text → Text → List Text → Result FlagError (Unit {0})
unfolding check_flags
check_compiler_flags_for_internal_link env name source list = do
  _ ← check_flags env name source list compiler_tables false
  flto_check list
