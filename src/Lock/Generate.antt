-- ===== src/Lock/Generate.antt =====
-- go/go2nix/pkg/lockfilegen/generate.go: the lockfile of a list of projects. The hash of a module
-- (`modCacheHash`, which downloads it) is a parameter. The hashing tasks run at the same time and
-- each writes its own keys behind a lock; `completed` lists them in the order in which they end.
use go2nix.Base.{
  List, [], ◌∷◌, ◌++◌, Option, none, some, Text, text_eq, any, lookup, insert, Result, ok, err,
  if◌then◌else◌,
}
use go2nix.Lock.Mods.{GoMod, ModInfo, replaced, collect_go_mod_modules, sort_by_key}
use go2nix.Lock.Check.{Lockfile, LockError, hash_failed, empty_lockfile}

-- The loop over the modules of one project; `modKeys` holds the keys of `mods`.
unfoldable pub merge : List ModInfo → List ModInfo → List ModInfo
merge [] mods = mods
merge (m ∷ rest) mods =
    merge rest (if any (λ n. text_eq n.key m.key) mods then mods else mods ++ m ∷ [])

-- The loop over the projects.
unfoldable pub all_mods : (Text → Text → Text) → List GoMod → List ModInfo → List ModInfo
unfolding merge collect_go_mod_modules
all_mods show [] mods = mods
all_mods show (gm ∷ rest) mods = all_mods show rest (merge (collect_go_mod_modules show gm) mods)

abbrev pub get_or_empty : Option Text → Text
get_or_empty none = []
get_or_empty (some s) = s

-- The hash that the old lockfile has for a module, if the replacement is the same.
unfoldable pub cached : Lockfile → ModInfo → Option Text
unfolding replaced
cached cache m = elim (lookup m.key cache.mods) [
  | none ↦ none
  | some h ↦
      if text_eq (get_or_empty (lookup m.key cache.replaces)) (replaced m) then some h else none
]

-- resultMod[m.Key] = hash, and resultReplace[m.Key] if the module is replaced.
unfoldable pub put : ModInfo → Text → Lockfile → Lockfile
unfolding replaced
put m h lock = record {
  mods = insert m.key h lock.mods;
  replaces =
      if text_eq (replaced m) [] then lock.replaces else insert m.key (replaced m) lock.replaces;
}

abbrev pub put_cached : Option Text → ModInfo → Lockfile → Lockfile
put_cached none m lock = lock
put_cached (some h) m lock = put m h lock

abbrev pub queue_uncached : Option Text → ModInfo → List ModInfo → List ModInfo
queue_uncached none m queued = m ∷ queued
queue_uncached (some h) m queued = queued

-- The loop that divides the modules into those with a cached hash and `toHash`.
unfoldable pub take_cached : Lockfile → List ModInfo → Lockfile → Lockfile
take_cached cache [] lock = lock
take_cached cache (m ∷ rest) lock = take_cached cache rest (put_cached (cached cache m) m lock)

unfoldable pub to_hash : Lockfile → List ModInfo → List ModInfo
to_hash cache [] = []
to_hash cache (m ∷ rest) = queue_uncached (cached cache m) m (to_hash cache rest)

-- The order in which the tasks are started.
unfoldable pub queue : (Text → Text → Text) → Lockfile → List GoMod → List ModInfo
unfolding all_mods to_hash cached sort_by_key
queue show cache dirs = sort_by_key (to_hash cache (all_mods show dirs []))

module _ (hash : Text → Text → Option Text) where
  unfoldable pub hash_all : List ModInfo → Lockfile → Result LockError Lockfile
  hash_all [] lock = ok lock
  hash_all (m ∷ rest) lock = elim (hash m.fetch_path m.version) [
    | none ↦ err (hash_failed m.key)
    | some h ↦ hash_all rest (put m h lock)
  ]

  -- `Generate`, between reading the old lockfile and writing the new one.
  unfoldable pub generate :
      (Text → Text → Text)
      → Lockfile
      → List GoMod
      → (completed : List ModInfo) → Result LockError Lockfile
  unfolding all_mods take_cached cached put hash_all
  generate show cache dirs completed =
      hash_all completed (take_cached cache (all_mods show dirs []) empty_lockfile)
