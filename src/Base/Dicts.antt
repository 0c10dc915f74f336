-- ===== src/Base/Dicts.antt =====
-- Go maps with string keys, as association lists with one entry to a key.
use mathlib.Core.Path.{◌≡◌, refl, sym}
use mathlib.Core.Logic.{◌⊎◌, inl, inr, ⊎_elim}
use mathlib.Core.Option.{Option, none, some}
use mathlib.Core.List.{List, [], ◌∷◌, Memᴰ}
use mathlib.Core.List.Memᴰ
use native.Mathlib.Omega.{arith}
use go2nix.Base.Tests.{if◌then◌else◌, Bool-cases}
use go2nix.Base.Strings.{Text, text_eq, text_eq_iff}

abbrev pub Dict : Type 0 → Type 0
Dict V = List (Text × V)

module _ {V : Type 0} where
  -- `v, ok := m[k]`
  abbrev pub lookup : Text → Dict V → Option V
  lookup k [] = none
  lookup k ((j, v) ∷ m) = if text_eq j k then some v else lookup k m

  -- `m[k] = v`
  abbrev pub insert : Text → V → Dict V → Dict V
  insert k v [] = (k, v) ∷ []
  insert k v ((j, w) ∷ m) = if text_eq j k then (j, v) ∷ m else (j, w) ∷ insert k v m

  abbrev pub keys : Dict V → List Text
  keys [] = []
  keys ((k, v) ∷ m) = k ∷ keys m

  pub lookup-insert :
      (m : Dict V) (k : Text) (new : V) (asked : Text)
      → lookup asked (insert k new m) ≡ (if text_eq k asked then some new else lookup asked m)
  lookup-insert [] k new asked = refl
  lookup-insert ((first, old) ∷ rest) k new asked =
      let ih = lookup-insert rest k new asked in
      ground (arith, ih, text_eq_iff first k, text_eq_iff first asked, text_eq_iff k asked)

  pub keys-Memᴰ : (k : Text) (m : Dict V) {v : V} → lookup k m ≡ some v → Memᴰ k (keys m)
  keys-Memᴰ k [] h = cc
  keys-Memᴰ k ((j, w) ∷ m) h = elim (Bool-cases (text_eq j k)) [
    | inl e ↦ Memᴰ.head (sym ((text_eq_iff j k).0 e))
    | inr e ↦ Memᴰ.tail (keys-Memᴰ k m (rw e at h))
  ]

  pub keys-insert :
      (k j : Text) (v : V) (m : Dict V) → Memᴰ k (keys (insert j v m)) → (k ≡ j) ⊎ Memᴰ k (keys m)
  keys-insert k j v [] h = ⊎_elim inl (λ m. inr m) (Memᴰ.cases_cons h)
  keys-insert k j v ((i, w) ∷ m) h = elim (Bool-cases (text_eq i j)) [
    | inl e ↦ inr (rw e at h)
    | inr e ↦ elim (Memᴰ.cases_cons (rw e at h)) [
      | inl q ↦ inr (Memᴰ.head q)
      | inr t ↦ ⊎_elim inl (λ n. inr (Memᴰ.tail n)) (keys-insert k j v m t)
    ]
  ]
