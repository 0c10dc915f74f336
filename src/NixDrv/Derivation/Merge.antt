-- ===== src/NixDrv/Derivation/Merge.antt =====
-- mergeUnique: what it keeps, and what it adds.
use go2nix.Base.{
  any-text_eq, Memᴰ-snoc, List, [], ◌∷◌, ◌++◌, ◌≡◌, sym, subst, ◌∙◌, append_assoc, append-nil, inl,
  inr, ◌⊎◌, ◌↔◌, Bool, true, false, Bool-cases, Text, text_eq, text_eq_iff, any, Memᴰ, Memᴰ-cons,
  ⊎_elim, arith,
}
use mathlib.Core.List.Memᴰ
use go2nix.NixDrv.Derivation.{merge_unique}

abbrev seen : Text → List Text → Bool
seen s a = any (text_eq s) a

Memᴰ→seen : (s : Text) (a : List Text) → Memᴰ s a → seen s a ≡ true
Memᴰ→seen s [] m = absurd (Memᴰ.not-nil m)
Memᴰ→seen s (x ∷ a) m = elim ((Memᴰ-cons s x a).0 m) [
  | inl e ↦ rw ((text_eq_iff s x).1 e)
  | inr t ↦ ground (arith, Memᴰ→seen s a t)
]

-- The members are those of both lists.
pub merge_unique-Memᴰ :
    (o : Text) (a b : List Text) → Memᴰ o (merge_unique a b) ↔ (Memᴰ o a ⊎ Memᴰ o b)
unfolding merge_unique
merge_unique-Memᴰ o a [] = (inl, ⊎_elim (λ m. m) (λ m. absurd (Memᴰ.not-nil m)))
merge_unique-Memᴰ o a (s ∷ b) = elim (Bool-cases (seen s a)) [
  | inl e ↦
      let there : (o ≡ s) → Memᴰ o a = λ q. subst (λ y. Memᴰ y a) (sym q) (any-text_eq s a e) in
      let ih = merge_unique-Memᴰ o a b in rw e (ground (arith, ih, there, Memᴰ-cons o s b))
  | inr e ↦
      let ih = merge_unique-Memᴰ o (a ++ s ∷ []) b in
      rw e (ground (arith, ih, Memᴰ-snoc o s a, Memᴰ-cons o s b))
]

-- Whether no member stands twice in a list that was built at its end.
pub data Distinct : List Text → Type 0 where
  none_yet : Distinct []
  one_more : {s : Text} {a : List Text} → Distinct a → ¬ Memᴰ s a → Distinct (a ++ s ∷ [])

not_seen : (s : Text) (a : List Text) → seen s a ≡ false → ¬ Memᴰ s a
not_seen s a e m = cc (Memᴰ→seen s a m)

pub merge_unique-Distinct : (a b : List Text) → Distinct a → Distinct (merge_unique a b)
unfolding merge_unique
merge_unique-Distinct a [] d = d
merge_unique-Distinct a (s ∷ b) d = elim (Bool-cases (seen s a)) [
  | inl e ↦ rw e (merge_unique-Distinct a b d)
  | inr e ↦ rw e (merge_unique-Distinct (a ++ s ∷ []) b (one_more d (not_seen s a e)))
]

-- The first list stays in front.
pub merge_unique_prefix : (a b : List Text) → (rest : List Text) × (merge_unique a b ≡ a ++ rest)
unfolding merge_unique
merge_unique_prefix a [] = ([], sym (append-nil a))
merge_unique_prefix a (s ∷ b) = elim (Bool-cases (seen s a)) [
  | inl e ↦ rw e (merge_unique_prefix a b)
  | inr e ↦
      let (rest, q) = merge_unique_prefix (a ++ s ∷ []) b in
      rw e (s ∷ rest, q ∙ append_assoc a (s ∷ []) rest)
]
