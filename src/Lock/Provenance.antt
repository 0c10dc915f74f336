-- ===== src/Lock/Provenance.antt =====
-- Where the hashes of a new lockfile come from.
use go2nix.Base.{
  List, [], ◌∷◌, ◌≡◌, refl, sym, subst, ◌∙◌, ◌⊎◌, inl, inr, Bool-cases, Option, none, some,
  Option-cases, Text, text_eq, text_eq_iff, lookup, ok, Memᴰ, if◌then◌else◌, arith,
}
use go2nix.Lock.Mods.{GoMod, ModInfo, replaced}
use go2nix.Lock.Check.{Lockfile, empty_lockfile}
use go2nix.Lock.Generate.{
  all_mods, cached, put, put_cached, take_cached, hash_all, generate, get_or_empty,
}
use go2nix.Lock.RoundTrip.{put-lookup}

-- The old lockfile has the hash for the same module and the same replacement.
abbrev pub Kept : Lockfile → ModInfo → Text → Type 0
Kept cache m h =
    (lookup m.key cache.mods ≡ some h) × (get_or_empty (lookup m.key cache.replaces) ≡ replaced m)

cached-Kept : (cache : Lockfile) (m : ModInfo) (h : Text) → cached cache m ≡ some h → Kept cache m h
unfolding cached
cached-Kept cache m h e =
    ground (arith, text_eq_iff (get_or_empty (lookup m.key cache.replaces)) (replaced m))

module _ (hash : Text → Text → Option Text) (cache : Lockfile) (mods completed : List ModInfo) where
  -- A module, and how its hash was found.
  abbrev pub Source : Text → Text → Type 0
  Source k h =
      (m : ModInfo) × (m.key ≡ k)
      × (Memᴰ m mods × Kept cache m h ⊎ Memᴰ m completed × (hash m.fetch_path m.version ≡ some h))

  abbrev Sourced : Lockfile → Type 0
  Sourced lock = (k h : Text) → lookup k lock.mods ≡ some h → Source k h

  put-Sourced :
      (m : ModInfo) (h : Text) (lock : Lockfile)
      → Source m.key h
      → Sourced lock
      → Sourced (put m h lock)
  put-Sourced m h lock found old k g e = elim (Bool-cases (text_eq m.key k)) [
    | inl same ↦
        let key : m.key ≡ k = (text_eq_iff m.key k).0 same in
        let whole : (if text_eq m.key k then some h else lookup k lock.mods) ≡ some g =
          sym (put-lookup m h lock k) ∙ e in
        let value : h ≡ g = cc (rw same at whole) in
        subst (λ x. Source x g) key (subst (Source m.key) value found)
    | inr other ↦
        let whole : (if text_eq m.key k then some h else lookup k lock.mods) ≡ some g =
          sym (put-lookup m h lock k) ∙ e in
        old k g (rw other at whole)
  ]

  take_cached-Sourced :
      (ms : List ModInfo) (lock : Lockfile)
      → ((m : ModInfo) → Memᴰ m ms → Memᴰ m mods)
      → Sourced lock
      → Sourced (take_cached cache ms lock)
  unfolding take_cached
  take_cached-Sourced [] lock sub s = s
  take_cached-Sourced (m ∷ rest) lock sub s =
      take_cached-Sourced rest _ (λ n i. sub n (Memᴰ.tail i)) (one (cached cache m) refl)
    where
      one : (o : Option Text) → cached cache m ≡ o → Sourced (put_cached o m lock)
      one none e = s
      one (some h) e =
          put-Sourced m h lock (m, refl, inl (sub m (Memᴰ.head refl), cached-Kept cache m h e)) s

  hash_all-Sourced :
      (ms : List ModInfo) (lock result : Lockfile)
      → ((m : ModInfo) → Memᴰ m ms → Memᴰ m completed)
      → hash_all hash ms lock ≡ ok result
      → Sourced lock
      → Sourced result
  unfolding hash_all
  hash_all-Sourced [] lock result sub h s = let same : lock ≡ result = cc in subst Sourced same s
  hash_all-Sourced (m ∷ rest) lock result sub h s =
      elim (Option-cases (hash m.fetch_path m.version)) [
        | inl e ↦ cc (rw (e, hash_all) at h)
        | inr (g, e) ↦
            hash_all-Sourced rest (put m g lock) result (λ n i. sub n (Memᴰ.tail i))
              (rw (e, hash_all) at h)
              (put-Sourced m g lock (m, refl, inr (sub m (Memᴰ.head refl), e)) s)
      ]

-- Every hash of a new lockfile is that of a module with its key: the one that the old lockfile
-- had for the module under the same replacement, or the one that hashing the module's fetch path
-- and version gave.
pub generate-Source :
    (hash : Text → Text → Option Text) (show : Text → Text → Text) (cache lock : Lockfile)
    (dirs : List GoMod) (completed : List ModInfo) (k h : Text)
    → generate hash show cache dirs completed ≡ ok lock
    → lookup k lock.mods ≡ some h
    → Source hash cache (all_mods show dirs []) completed k h
unfolding generate
generate-Source hash show cache lock dirs completed k h e =
    let mods = all_mods show dirs [] in
    hash_all-Sourced hash cache mods completed completed _ lock (λ m i. i) e
      (take_cached-Sourced hash cache mods completed mods empty_lockfile (λ m i. i)
        (λ k' h' e'. cc))
      k h
