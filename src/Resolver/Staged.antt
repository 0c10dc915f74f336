-- ===== src/Resolver/Staged.antt =====
-- The staging of the sources of local packages.
use go2nix.Base.{
  ℕ, ◌+◌, List, [], ◌∷◌, ◌≡◌, refl, sym, ap, subst, ◌∙◌, inl, inr, Bool-cases, true, Option, some,
  Text, text_eq, text_eq_refl, Dict, lookup, insert, lookup-insert, Memᴰ, ok, ok_of_bind, ok_cancel,
}
use mathlib.Core.List.Memᴰ
use go2nix.NixDrv.Placeholder.{StorePath}
use go2nix.Resolver.Package.{Package}
use go2nix.Resolver.Steps.{stage_local_source, stage_sources, stage_local_sources}

abbrev pub Staged : Dict StorePath → Text → Type 0
Staged staged k = (source : StorePath) × (lookup k staged ≡ some source)

insert-Staged_self :
    (k : Text) (source : StorePath) (staged : Dict StorePath) → Staged (insert k source staged) k
insert-Staged_self k source staged =
    (source, lookup-insert staged k source k ∙ rw (text_eq_refl k) refl)

pub insert-Staged :
    (k j : Text) (source : StorePath) (staged : Dict StorePath)
    → Staged staged k
    → Staged (insert j source staged) k
insert-Staged k j source staged (old, h) = elim (Bool-cases (text_eq j k)) [
  | inl e ↦ (source, lookup-insert staged j source k ∙ rw e refl)
  | inr e ↦ (old, lookup-insert staged j source k ∙ rw e h)
]

module _ (sha256 : Text → List ℕ) (store_add : Text → Text → List Text → Option StorePath) where
  stage_sources-Staged :
      (pkgs : List Package) (n m : ℕ) (before after : Dict StorePath)
      → stage_sources sha256 store_add pkgs (n, before) ≡ ok (m, after)
      → ((k : Text) → Staged before k → Staged after k)
        × ((pkg : Package) → Memᴰ pkg pkgs → pkg.local ≡ true → Staged after pkg.import_path)
  unfolding stage_sources
  stage_sources-Staged [] n m before after h =
      let same : before ≡ after = ap (λ x. x.1) (ok_cancel h) in
      (λ k s. subst (λ d. Staged d k) same s, λ pkg i. absurd (Memᴰ.not-nil i))
  stage_sources-Staged (p ∷ pkgs) n m before after h = elim (Bool-cases p.local) [
    | inl here ↦
        let record { value = source; came = c; went = w } =
          ok_of_bind _ (stage_local_source sha256 store_add p) (rw here at h) in
        let (keeps, stages) =
          stage_sources-Staged pkgs (n + 1) m (insert p.import_path source before) after w in
        (
          λ k s. keeps k (insert-Staged k p.import_path source before s),
          λ pkg i l. elim (Memᴰ.cases_cons i) [
            | inl e ↦
                subst (λ x. Staged after x.import_path) (sym e)
                  (keeps p.import_path (insert-Staged_self p.import_path source before))
            | inr t ↦ stages pkg t l
          ],
        )
    | inr there ↦
        let (keeps, stages) = stage_sources-Staged pkgs n m before after (rw there at h) in
        (
          keeps,
          λ pkg i l. elim (Memᴰ.cases_cons i) [
            | inl e ↦ cc (l, there, ap (λ x. x.local) e)
            | inr t ↦ stages pkg t l
          ],
        )
  ]

  -- Every local package of a list that is staged has a source.
  pub stage_local_sources-Staged :
      (pkgs : List Package) (n : ℕ) (staged : Dict StorePath)
      → stage_local_sources sha256 store_add pkgs ≡ ok (n, staged)
      → (pkg : Package) → Memᴰ pkg pkgs
      → pkg.local ≡ true
      → Staged staged pkg.import_path
  unfolding stage_local_sources
  stage_local_sources-Staged pkgs n staged h = (stage_sources-Staged pkgs 0 n [] staged h).1
