-- ===== src/Lock/Check.antt =====
-- go/go2nix/pkg/lockfile/lockfile.go (reading) and go/go2nix/pkg/mvscheck/mvscheck.go.
use go2nix.Base.{
  List, [], ◌∷◌, Option, none, some, Text, text_eq, sort, Dict, lookup, Result, ok, err, ◌>>=◌,
  if◌then◌else◌,
}
use go2nix.Lock.Mods.{ModVersion, GoMod, find_replace}

pub record Lockfile : Type 0 where
  pub mods : Dict Text
  pub replaces : Dict Text

-- What `os.ReadFile` returns.
pub data File : Type 0 where
  absent unreadable : File
  holds : Text → File

pub data LockError : Type 0 where
  read_failed parse_failed : LockError
  unknown_keys : List Text → LockError
  stale : (missing : List Text) → LockError
  hash_failed : (key : Text) → LockError

abbrev pub empty_lockfile : Lockfile
empty_lockfile = record { mods = []; replaces = [] }

-- `lockfile.Read`. What `toml.Decode` makes of a text, with the keys that it did not decode, is a
-- parameter.
unfoldable pub read_lockfile :
    (Text → Option (Lockfile × List Text)) → File → Result LockError Lockfile
read_lockfile decode absent = ok empty_lockfile
read_lockfile decode unreadable = err read_failed
read_lockfile decode (holds text) = elim (decode text) [
  | none ↦ err parse_failed
  | some (lock, []) ↦ ok lock
  | some (lock, key ∷ keys) ↦ err (unknown_keys (key ∷ keys))
]

-- The error for `missing`, sorted.
abbrev pub report : List Text → Result LockError (Unit {0})
report [] = ok tt
report (key ∷ keys) = err (stale (sort (key ∷ keys)))

module _ (show : Text → Text → Text) where
  -- The key that the loop of CheckLockfile looks up, or `none` for a local replace.
  unfoldable pub required_key : GoMod → ModVersion → Option Text
  unfolding find_replace
  required_key gm req = elim (find_replace gm req) [
    | none ↦ some (show req.path req.version)
    | some r ↦ if text_eq r.new.version [] then none else some (show req.path r.new.version)
  ]

  -- The loop, which collects `missing`.
  unfoldable pub missing_keys : GoMod → Lockfile → List ModVersion → List Text
  unfolding required_key
  missing_keys gm lock [] = []
  missing_keys gm lock (req ∷ rest) = elim (required_key gm req) [
    | none ↦ missing_keys gm lock rest
    | some key ↦ elim (lookup key lock.mods) [
      | none ↦ key ∷ missing_keys gm lock rest
      | some _ ↦ missing_keys gm lock rest
    ]
  ]

  -- What CheckLockfile does with a go.mod and a lockfile that it could read.
  unfoldable pub check : GoMod → Lockfile → Result LockError (Unit {0})
  unfolding missing_keys sort
  check gm lock = report (missing_keys gm lock gm.require)

  unfoldable pub check_lockfile :
      (Text → Option GoMod)
      → (Text → Option (Lockfile × List Text))
      → File
      → File
      → Result LockError (Unit {0})
  unfolding check read_lockfile
  check_lockfile parse decode absent lock_file = err read_failed
  check_lockfile parse decode unreadable lock_file = err read_failed
  check_lockfile parse decode (holds text) lock_file = elim (parse text) [
    | none ↦ err parse_failed
    | some gm ↦ read_lockfile decode lock_file >>= check gm
  ]
