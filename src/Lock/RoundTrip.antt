-- ===== src/Lock/RoundTrip.antt =====
-- A lockfile that `generate` makes passes `check` for each of its projects.
use go2nix.Base.{
  List, [], ◌∷◌, ◌≡◌, refl, sym, subst, ◌∙◌, ◌⊎◌, inl, inr, Bool-cases, Option, none, some,
  Option-cases, Text, text_eq, text_eq_refl, lookup, lookup-insert, ok, Memᴰ, if◌then◌else◌,
}
use mathlib.Core.List.Memᴰ
use go2nix.Lock.Mods.{ModVersion, GoMod, ModInfo}
use go2nix.Lock.Check.{Lockfile, empty_lockfile, required_key, missing_keys, check}
use go2nix.Lock.Generate.{
  all_mods, cached, put, put_cached, queue_uncached, take_cached, to_hash, hash_all, generate,
  queue,
}
use go2nix.Lock.Collected.{all_mods-HasKey, required_key-mod_info, sort_by_key-Memᴰ}

abbrev Defined : Text → Lockfile → Type 0
Defined k lock = (h : Text) × (lookup k lock.mods ≡ some h)

pub put-lookup :
    (m : ModInfo) (h : Text) (lock : Lockfile) (k : Text)
    → lookup k (put m h lock).mods ≡ (if text_eq m.key k then some h else lookup k lock.mods)
unfolding put
put-lookup m h lock k = lookup-insert lock.mods m.key h k

put-Defined_self : (m : ModInfo) (h : Text) (lock : Lockfile) → Defined m.key (put m h lock)
put-Defined_self m h lock = (h, put-lookup m h lock m.key ∙ rw (text_eq_refl m.key))

put-Defined :
    (m : ModInfo) (h : Text) (lock : Lockfile) (k : Text)
    → Defined k lock
    → Defined k (put m h lock)
put-Defined m h lock k (g, e) = elim (Bool-cases (text_eq m.key k)) [
  | inl same ↦ (h, put-lookup m h lock k ∙ rw same)
  | inr other ↦ (g, put-lookup m h lock k ∙ rw other e)
]

module _ (cache : Lockfile) where
  put_cached-Defined :
      (o : Option Text) (m : ModInfo) (lock : Lockfile) (k : Text)
      → Defined k lock
      → Defined k (put_cached o m lock)
  put_cached-Defined none m lock k d = d
  put_cached-Defined (some h) m lock k d = put-Defined m h lock k d

  take_cached-keeps :
      (ms : List ModInfo) (lock : Lockfile) (k : Text)
      → Defined k lock
      → Defined k (take_cached cache ms lock)
  unfolding take_cached
  take_cached-keeps [] lock k d = d
  take_cached-keeps (m ∷ rest) lock k d =
      take_cached-keeps rest _ k (put_cached-Defined (cached cache m) m lock k d)

  queue_uncached-Memᴰ :
      (o : Option Text) (n m : ModInfo) (queued : List ModInfo)
      → Memᴰ m queued
      → Memᴰ m (queue_uncached o n queued)
  queue_uncached-Memᴰ none n m queued i = Memᴰ.tail i
  queue_uncached-Memᴰ (some h) n m queued i = i

  -- A module is written from the cache, or it is queued for hashing.
  take_cached-or-to_hash :
      (ms : List ModInfo) (lock : Lockfile) (m : ModInfo)
      → Memᴰ m ms
      → Defined m.key (take_cached cache ms lock) ⊎ Memᴰ m (to_hash cache ms)
  unfolding take_cached to_hash
  take_cached-or-to_hash [] lock m i = absurd (Memᴰ.not-nil i)
  take_cached-or-to_hash (n ∷ rest) lock m i = elim (Memᴰ.cases_cons i) [
    | inl same ↦ elim (Option-cases (cached cache n)) [
      | inl e ↦ inr (rw e (Memᴰ.head same))
      | inr (h, e) ↦
          let new =
            subst (λ o. Defined n.key (put_cached o n lock)) (sym e) (put-Defined_self n h lock) in
          inl (
            subst (λ x. Defined x.key (take_cached cache (n ∷ rest) lock)) (sym same)
              (take_cached-keeps rest (put_cached (cached cache n) n lock) n.key new))
    ]
    | inr j ↦ elim (take_cached-or-to_hash rest (put_cached (cached cache n) n lock) m j) [
      | inl d ↦ inl d
      | inr q ↦ inr (queue_uncached-Memᴰ (cached cache n) n m (to_hash cache rest) q)
    ]
  ]

module _ (hash : Text → Text → Option Text) where
  hash_all-keeps :
      (ms : List ModInfo) (lock result : Lockfile) (k : Text)
      → hash_all hash ms lock ≡ ok result
      → Defined k lock
      → Defined k result
  unfolding hash_all
  hash_all-keeps [] lock result k h d = let same : lock ≡ result = cc in subst (Defined k) same d
  hash_all-keeps (m ∷ rest) lock result k h d = elim (Option-cases (hash m.fetch_path m.version)) [
    | inl e ↦ cc (rw (e, hash_all) at h)
    | inr (g, e) ↦
        hash_all-keeps rest (put m g lock) result k (rw (e, hash_all) at h)
          (put-Defined m g lock k d)
  ]

  hash_all-Defined :
      (ms : List ModInfo) (lock result : Lockfile) (m : ModInfo)
      → hash_all hash ms lock ≡ ok result
      → Memᴰ m ms
      → Defined m.key result
  unfolding hash_all
  hash_all-Defined [] lock result m h i = absurd (Memᴰ.not-nil i)
  hash_all-Defined (n ∷ rest) lock result m h i =
      elim (Option-cases (hash n.fetch_path n.version)) [
        | inl e ↦ cc (rw (e, hash_all) at h)
        | inr (g, e) ↦ elim (Memᴰ.cases_cons i) [
          | inl same ↦
              subst (λ x. Defined x.key result) (sym same)
                (hash_all-keeps rest (put n g lock) result n.key (rw (e, hash_all) at h)
                  (put-Defined_self n g lock))
          | inr j ↦ hash_all-Defined rest (put n g lock) result m (rw (e, hash_all) at h) j
        ]
      ]

module _ (show : Text → Text → Text) where
  none_missing :
      (gm : GoMod) (lock : Lockfile) (reqs : List ModVersion)
      → ((req : ModVersion) (k : Text)
          → Memᴰ req reqs
          → required_key show gm req ≡ some k
          → Defined k lock)
      → missing_keys show gm lock reqs ≡ []
  unfolding missing_keys
  none_missing gm lock [] all_there = refl
  none_missing gm lock (req ∷ rest) all_there =
      let later = none_missing gm lock rest (λ r k i e. all_there r k (Memᴰ.tail i) e) in
      elim (Option-cases (required_key show gm req)) [
        | inl e ↦ rw (e, missing_keys) later
        | inr (k, e) ↦
            let (h, d) = all_there req k (Memᴰ.head refl) e in rw (e, missing_keys, d) later
      ]

-- When `generate` succeeds, and every module that it queued for hashing was hashed, in whatever
-- order, the check accepts the new lockfile for each project that it was made for.
pub generate-check :
    (hash : Text → Text → Option Text) (show : Text → Text → Text) (cache lock : Lockfile)
    (dirs : List GoMod) (completed : List ModInfo) (gm : GoMod)
    → generate hash show cache dirs completed ≡ ok lock
    → ((m : ModInfo) → Memᴰ m (queue show cache dirs) → Memᴰ m completed)
    → Memᴰ gm dirs
    → check show gm lock ≡ ok tt
unfolding generate check queue
generate-check hash show cache lock dirs completed gm h hashed d =
    rw (none_missing show gm lock gm.require there)
  where
    mods : List ModInfo
    mods = all_mods show dirs []

    written : Lockfile
    written = take_cached cache mods empty_lockfile

    there :
        (req : ModVersion) (k : Text)
        → Memᴰ req gm.require
        → required_key show gm req ≡ some k
        → Defined k lock
    there req k i e =
        let (m, found, same) = required_key-mod_info show gm req e in
        let (n, j, q) = all_mods-HasKey show dirs [] gm req m d i found in
        subst (λ x. Defined x lock) (q ∙ same)
          (elim (take_cached-or-to_hash cache mods empty_lockfile n j) [
            | inl w ↦ hash_all-keeps hash completed written lock n.key h w
            | inr w ↦
                hash_all-Defined hash completed written lock n h (hashed n (sort_by_key-Memᴰ n _ w))
          ])
