-- ===== src/Lock/Collected.antt =====
-- Every module that a project requires and does not replace by a directory has its key among the
-- modules that are collected for the lockfile.
use go2nix.Base.{
  List, [], ◌∷◌, ◌++◌, ◌≡◌, refl, sym, ap, subst, ◌∙◌, ◌⊎◌, inl, inr, ⊎_elim, Bool, true, false,
  Bool-cases, or-eq-true, Option, none, some, Option-cases, Text, text_eq, text_eq_iff, text_leb,
  any, Memᴰ, if◌then◌else◌, arith, any-Memᴰ,
}
use mathlib.Core.List.Memᴰ
use go2nix.Lock.Mods.{
  ModVersion, GoMod, ModInfo, mod_info, collect, insert_by_key, sort_by_key, collect_go_mod_modules,
}
use go2nix.Lock.Check.{required_key}
use go2nix.Lock.Generate.{merge, all_mods}

abbrev pub HasKey : Text → List ModInfo → Type 0
HasKey k ms = (m : ModInfo) × Memᴰ m ms × (m.key ≡ k)

insert_by_key-Memᴰ :
    (a m : ModInfo) (ms : List ModInfo) → (a ≡ m) ⊎ Memᴰ a ms → Memᴰ a (insert_by_key m ms)
insert_by_key-Memᴰ a m [] h = ⊎_elim Memᴰ.head Memᴰ.tail h
insert_by_key-Memᴰ a m (n ∷ ms) h = elim (Bool-cases (text_leb m.key n.key)) [
  | inl e ↦ rw e (⊎_elim Memᴰ.head Memᴰ.tail h)
  | inr e ↦ rw e (
      ⊎_elim (λ same. Memᴰ.tail (insert_by_key-Memᴰ a m ms (inl same)))
        (λ k. elim (Memᴰ.cases_cons k) [
          | inl q ↦ Memᴰ.head q
          | inr r ↦ Memᴰ.tail (insert_by_key-Memᴰ a m ms (inr r))
        ])
        h)
]

pub sort_by_key-Memᴰ : (a : ModInfo) (ms : List ModInfo) → Memᴰ a ms → Memᴰ a (sort_by_key ms)
unfolding sort_by_key
sort_by_key-Memᴰ a [] m = m
sort_by_key-Memᴰ a (n ∷ ms) m =
    insert_by_key-Memᴰ a n (sort_by_key ms)
      (⊎_elim inl (λ k. inr (sort_by_key-Memᴰ a ms k)) (Memᴰ.cases_cons m))

merge-old : (k : Text) (ms mods : List ModInfo) → HasKey k mods → HasKey k (merge ms mods)
unfolding merge
merge-old k [] mods h = h
merge-old k (m ∷ rest) mods h = merge-old k rest _ (widen (any (λ n. text_eq n.key m.key) mods))
  where
    widen : (b : Bool) → HasKey k (if b then mods else mods ++ m ∷ [])
    widen true = h
    widen false = let (n, i, e) = h in (n, Memᴰ.append_left _ i, e)

merge-new : (k : Text) (ms mods : List ModInfo) → HasKey k ms → HasKey k (merge ms mods)
unfolding merge
merge-new k [] mods (n, i, e) = absurd (Memᴰ.not-nil i)
merge-new k (m ∷ rest) mods (n, i, e) = elim (Memᴰ.cases_cons i) [
  | inl same ↦ elim (Bool-cases (any (λ x. text_eq x.key m.key) mods)) [
    | inl there ↦
        let (x, j, q) = any-Memᴰ (λ x. text_eq x.key m.key) mods there in
        merge-old k (m ∷ rest) mods
          (x, j, (text_eq_iff x.key m.key).0 q ∙ (sym (ap (λ y. y.key) same) ∙ e))
    | inr fresh ↦ rw fresh (
        merge-old k rest (mods ++ m ∷ [])
          (m, Memᴰ.append_right mods (Memᴰ.head refl), sym (ap (λ y. y.key) same) ∙ e))
  ]
  | inr j ↦ merge-new k rest _ (n, j, e)
]

module _ (show : Text → Text → Text) where
  -- The two loops, of CollectGoModModules and of CheckLockfile, agree on the keys.
  key_of : Option ModInfo → Option Text
  key_of none = none
  key_of (some m) = some m.key

  required_key-eq :
      (gm : GoMod) (req : ModVersion) → required_key show gm req ≡ key_of (mod_info show gm req)
  unfolding required_key mod_info key_of
  required_key-eq gm req = ground arith

  pub required_key-mod_info :
      (gm : GoMod) (req : ModVersion) {k : Text}
      → required_key show gm req ≡ some k
      → (m : ModInfo) × (mod_info show gm req ≡ some m) × (m.key ≡ k)
  unfolding key_of
  required_key-mod_info gm req h = elim (Option-cases (mod_info show gm req)) [
    | inl e ↦ cc (required_key-eq gm req, ap key_of e)
    | inr (m, e) ↦ (m, e, cc (required_key-eq gm req, ap key_of e))
  ]

  module _ (gm : GoMod) (seen : List Text) (r : ModVersion) (reqs : List ModVersion) where
    collect-local :
        mod_info show gm r ≡ none → collect show gm seen (r ∷ reqs) ≡ collect show gm seen reqs
    unfolding collect
    collect-local e = rw (e, collect)

    collect-seen :
        (m : ModInfo)
        → mod_info show gm r ≡ some m
        → any (text_eq m.key) seen ≡ true
        → collect show gm seen (r ∷ reqs) ≡ collect show gm seen reqs
    unfolding collect
    collect-seen m e f = rw (e, collect, f)

    collect-fresh :
        (m : ModInfo)
        → mod_info show gm r ≡ some m
        → any (text_eq m.key) seen ≡ false
        → collect show gm seen (r ∷ reqs) ≡ m ∷ collect show gm (m.key ∷ seen) reqs
    unfolding collect
    collect-fresh m e f = rw (e, collect, f)

  abbrev Collects : GoMod → List Text → List ModVersion → Text → Type 0
  Collects gm seen reqs k = (any (text_eq k) seen ≡ true) ⊎ HasKey k (collect show gm seen reqs)

  Collects-fresh :
      (gm : GoMod) (seen : List Text) (reqs : List ModVersion) (n : ModInfo) (k : Text)
      → Collects gm (n.key ∷ seen) reqs k
      → (any (text_eq k) seen ≡ true) ⊎ HasKey k (n ∷ collect show gm (n.key ∷ seen) reqs)
  Collects-fresh gm seen reqs n k (inl h) =
      elim (or-eq-true (text_eq k n.key) (any (text_eq k) seen) h) [
        | inl e ↦ inr (n, Memᴰ.head refl, sym ((text_eq_iff k n.key).0 e))
        | inr e ↦ inl e
      ]
  Collects-fresh gm seen reqs n k (inr (x, i, e)) = inr (x, Memᴰ.tail i, e)

  collect-HasKey :
      (gm : GoMod) (seen : List Text) (reqs : List ModVersion) (req : ModVersion) (m : ModInfo)
      → Memᴰ req reqs
      → mod_info show gm req ≡ some m
      → Collects gm seen reqs m.key
  collect-HasKey gm seen [] req m i e = absurd (Memᴰ.not-nil i)
  collect-HasKey gm seen (r ∷ reqs) req m i e = elim (Memᴰ.cases_cons i) [
    | inl same ↦ elim (Bool-cases (any (text_eq m.key) seen)) [
      | inl old ↦ inl old
      | inr new ↦ inr (
          rw (collect-fresh gm seen r reqs m (subst (λ x. mod_info show gm x ≡ some m) same e) new)
            (m, Memᴰ.head refl, refl))
    ]
    | inr j ↦ elim (Option-cases (mod_info show gm r)) [
      | inl l ↦ rw (collect-local gm seen r reqs l) (collect-HasKey gm seen reqs req m j e)
      | inr (n, l) ↦ elim (Bool-cases (any (text_eq n.key) seen)) [
        | inl old ↦ rw (collect-seen gm seen r reqs n l old) (collect-HasKey gm seen reqs req m j e)
        | inr new ↦
            rw (collect-fresh gm seen r reqs n l new) (
              Collects-fresh gm seen reqs n m.key (collect-HasKey gm (n.key ∷ seen) reqs req m j e))
      ]
    ]
  ]

  collect_go_mod_modules-HasKey :
      (gm : GoMod) (req : ModVersion) (m : ModInfo)
      → Memᴰ req gm.require
      → mod_info show gm req ≡ some m
      → HasKey m.key (collect_go_mod_modules show gm)
  unfolding collect_go_mod_modules
  collect_go_mod_modules-HasKey gm req m i e = elim (collect-HasKey gm [] gm.require req m i e) [
    | inl h ↦ cc
    | inr (x, j, q) ↦ (x, sort_by_key-Memᴰ x _ j, q)
  ]

  all_mods-old :
      (dirs : List GoMod) (mods : List ModInfo) (k : Text)
      → HasKey k mods
      → HasKey k (all_mods show dirs mods)
  unfolding all_mods
  all_mods-old [] mods k h = h
  all_mods-old (gm ∷ rest) mods k h =
      all_mods-old rest _ k (merge-old k (collect_go_mod_modules show gm) mods h)

  pub all_mods-HasKey :
      (dirs : List GoMod) (mods : List ModInfo) (gm : GoMod) (req : ModVersion) (m : ModInfo)
      → Memᴰ gm dirs
      → Memᴰ req gm.require
      → mod_info show gm req ≡ some m
      → HasKey m.key (all_mods show dirs mods)
  unfolding all_mods
  all_mods-HasKey [] mods gm req m d i e = absurd (Memᴰ.not-nil d)
  all_mods-HasKey (g ∷ rest) mods gm req m d i e = elim (Memᴰ.cases_cons d) [
    | inl same ↦ all_mods-old rest _ m.key (
        merge-new m.key (collect_go_mod_modules show g) mods (
          subst (λ x. HasKey m.key (collect_go_mod_modules show x)) same
            (collect_go_mod_modules-HasKey gm req m i e)))
    | inr d' ↦ all_mods-HasKey rest _ gm req m d' i e
  ]
