-- ===== src/TestRunner/Affected/Reverse.antt =====
-- The packages that depend on one.
use go2nix.Base.{
  List, [], ◌∷◌, ◌≡◌, refl, sym, subst, inl, inr, ◌↔◌, Bool-cases, Option-cases, Text, text_eq,
  text_eq_iff, flat_map, flat_map-Memᴰ, Memᴰ-flat_map, Dict, lookup, keys, keys-Memᴰ, Memᴰ,
  if◌then◌else◌,
}
use mathlib.Core.List.Memᴰ
use go2nix.LocalPackages.{LocalPkg}
use go2nix.TestRunner.Affected.{deps_or_none, local_deps_of, rev_deps}

module _ (pkg_map : Dict LocalPkg) where
  -- A key with dependencies is one of the map.
  pub local_deps_of-keys : (k d : Text) → Memᴰ d (local_deps_of pkg_map k) → Memᴰ k (keys pkg_map)
  local_deps_of-keys k d m = elim (Option-cases (lookup k pkg_map)) [
    | inl n ↦ absurd (Memᴰ.not-nil (subst (λ o. Memᴰ d (deps_or_none o)) n m))
    | inr (p, n) ↦ keys-Memᴰ k pkg_map n
  ]

  once : (k cur dep : Text) → Memᴰ k (if text_eq dep cur then k ∷ [] else []) ↔ (dep ≡ cur)
  once k cur dep = elim (Bool-cases (text_eq dep cur)) [
    | inl e ↦ rw e (λ _. (text_eq_iff dep cur).0 e, λ _. Memᴰ.head refl)
    | inr e ↦ rw e (λ m. absurd (Memᴰ.not-nil m), λ q. cc ((text_eq_iff dep cur).1 q))
  ]

  named : (k j cur dep : Text) → Memᴰ k (if text_eq dep cur then j ∷ [] else []) → k ≡ j
  named k j cur dep m = elim (Bool-cases (text_eq dep cur)) [
    | inl e ↦ Memᴰ.eq_of_singleton (rw e at m)
    | inr e ↦ absurd (Memᴰ.not-nil (rw e at m))
  ]

  abbrev times : Text → Text → List Text
  times cur j = flat_map (λ dep. if text_eq dep cur then j ∷ [] else []) (local_deps_of pkg_map j)

  pub rev_deps-Memᴰ :
      (k cur : Text) → Memᴰ k (rev_deps pkg_map cur) ↔ Memᴰ cur (local_deps_of pkg_map k)
  rev_deps-Memᴰ k cur = (
    λ m.
        let (j, _, n) = flat_map-Memᴰ (times cur) (keys pkg_map) m in
        let (dep, i, o) =
          flat_map-Memᴰ (λ dep. if text_eq dep cur then j ∷ [] else []) (local_deps_of pkg_map j)
            n in
        let same : k ≡ j = named k j cur dep o in
        let hit : dep ≡ cur =
          (once k cur dep).0
            (subst (λ x. Memᴰ k (if text_eq dep cur then x ∷ [] else [])) (sym same) o) in
        subst (λ x. Memᴰ x (local_deps_of pkg_map k)) hit
          (subst (λ x. Memᴰ dep (local_deps_of pkg_map x)) (sym same) i),
    λ m. Memᴰ-flat_map (times cur) (keys pkg_map) (local_deps_of-keys k cur m) (
        Memᴰ-flat_map (λ dep. if text_eq dep cur then k ∷ [] else []) (local_deps_of pkg_map k) m
          ((once k cur cur).1 refl)),
  )
