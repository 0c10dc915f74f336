-- ===== src/Lock/Tests.antt =====
-- A small project, its lockfile, and the theorems at these.
use go2nix.Base.{
  List, [], ◌∷◌, ◌++◌, ◌≡◌, ◌↔◌, refl, subst, Option, none, some, Text, codes, text_eq, ok, err,
  Memᴰ, if◌then◌else◌,
}
use go2nix.Lock.Mods.{ModVersion, Replace, GoMod, ModInfo, find_replace, collect_go_mod_modules}
use go2nix.Lock.Check.{Lockfile, holds, absent, stale, unknown_keys, check, check_lockfile}
use go2nix.Lock.Generate.{all_mods, generate, queue}
use go2nix.Lock.Exact.{Lacking, check_exact, find_replace_last}
use go2nix.Lock.RoundTrip.{generate-check}
use go2nix.Lock.Provenance.{Source, generate-Source}

abbrev show : Text → Text → Text
show path version = if text_eq version [] then path else path ++ (codes "@" ++ version)

abbrev at : Text → Text → ModVersion
at path version = record { path = path; version = version }

abbrev v1 : Text
v1 = codes "v1"

-- `b` is a directory, `c` is fetched from `d`, and the first line for `c` is overridden.
abbrev c_to_d : Replace
c_to_d = record { old = at (codes "c") v1; new = at (codes "d") (codes "v4") }

abbrev project : GoMod
project = record {
  require = at (codes "a") v1 ∷ at (codes "b") v1 ∷ at (codes "c") v1 ∷ [];
  replace =
      record { old = at (codes "b") []; new = at (codes "../b") [] }
      ∷ record { old = at (codes "c") []; new = at (codes "../c") [] }
      ∷ c_to_d
      ∷ [];
}

abbrev a_info : ModInfo
a_info = record { key = codes "a@v1"; fetch_path = codes "a"; version = v1 }

abbrev c_info : ModInfo
c_info = record { key = codes "c@v4"; fetch_path = codes "d"; version = codes "v4" }

abbrev hash : Text → Text → Option Text
hash path version = some (codes "sha256-" ++ (path ++ version))

abbrev old_lock : Lockfile
old_lock = record { mods = (codes "a@v1", codes "old") ∷ []; replaces = [] }

abbrev new_lock : Lockfile
new_lock = record {
  mods = (codes "a@v1", codes "old") ∷ (codes "c@v4", codes "sha256-dv4") ∷ [];
  replaces = (codes "c@v4", codes "d") ∷ [];
}

collected : collect_go_mod_modules show project ≡ a_info ∷ c_info ∷ []
unfolding collect_go_mod_modules
collected = refl

generated : generate hash show old_lock (project ∷ []) (c_info ∷ []) ≡ ok new_lock
unfolding generate
generated = refl

queued : queue show old_lock (project ∷ []) ≡ c_info ∷ []
unfolding queue
queued = refl

stale_lock : check show project old_lock ≡ err (stale (codes "c@v4" ∷ []))
unfolding check
stale_lock = refl

abbrev parse : Text → Option GoMod
parse _ = some project

strict_keys :
    check_lockfile show parse (λ _. some (new_lock, codes "extra" ∷ [])) (holds []) (holds [])
    ≡ err (unknown_keys (codes "extra" ∷ []))
unfolding check_lockfile
strict_keys = refl

no_lockfile :
    check_lockfile show parse (λ _. none) (holds []) absent
    ≡ err (stale (codes "a@v1" ∷ codes "c@v4" ∷ []))
unfolding check_lockfile
no_lockfile = refl

generate-check_example : check show project new_lock ≡ ok tt
generate-check_example =
    generate-check hash show old_lock new_lock (project ∷ []) (c_info ∷ []) project generated
      (λ m i. subst (Memᴰ m) queued i) (Memᴰ.head refl)

generate-Source_example :
    Source hash old_lock
      (all_mods show (project ∷ []) [])
      (c_info ∷ [])
      (codes "a@v1")
      (codes "old")
generate-Source_example =
    generate-Source hash show old_lock new_lock (project ∷ []) (c_info ∷ []) (codes "a@v1")
      (codes "old") generated refl

old_lock_short :
    ((check show project old_lock ≡ ok tt)
      ↔ ((k : Text) → ¬ Lacking show project old_lock project.require k))
    × ((keys : List Text)
        → check show project old_lock ≡ err (stale keys)
        → (k : Text) → Memᴰ k keys ↔ Lacking show project old_lock project.require k)
old_lock_short = check_exact show project old_lock

last_replace_here : find_replace project (at (codes "c") v1) ≡ some c_to_d
last_replace_here =
    find_replace_last project (at (codes "c") v1) c_to_d
      (record { old = at (codes "b") []; new = at (codes "../b") [] }
        ∷ record { old = at (codes "c") []; new = at (codes "../c") [] }
        ∷ [])
      [] refl refl tt
