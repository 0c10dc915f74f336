-- ===== src/Graph/Cgo.antt =====
-- The imports of packages after injectCgoImports.
use go2nix.Base.{
  List, [], ◌∷◌, ◌++◌, ◌≡◌, refl, sym, subst, ◌∙◌, append-nil, append_assoc, true, Bool-cases, inl,
  inr, ◌⊎◌, ◌↔◌, ⊎_elim, Text, text_eq, any, any-text_eq, Memᴰ-snoc, arith, Memᴰ, Memᴰ-cons,
}
use mathlib.Core.List.Memᴰ
use go2nix.Graph.Packages.{Pkg, needs_cgo, cgo_imports, add_unseen, inject}

-- The imports that are added come behind those that were there, which hold `seen`.
add_unseen_prefix :
    (seen names imports : List Text)
    → (added : List Text) × (add_unseen seen names imports ≡ imports ++ added)
add_unseen_prefix seen [] imports = ([], sym (append-nil imports))
add_unseen_prefix seen (imp ∷ rest) imports = elim (Bool-cases (any (text_eq imp) seen)) [
  | inl e ↦ rw e (add_unseen_prefix seen rest imports)
  | inr e ↦
      let (added, q) = add_unseen_prefix seen rest (imports ++ imp ∷ []) in
      rw e (imp ∷ added, q ∙ append_assoc imports (imp ∷ []) added)
]

add_unseen-Memᴰ :
    (seen names imports : List Text) (i : Text)
    → ((k : Text) → Memᴰ k seen → Memᴰ k imports)
    → Memᴰ i (add_unseen seen names imports) ↔ (Memᴰ i imports ⊎ Memᴰ i names)
add_unseen-Memᴰ seen [] imports i sub = (inl, ⊎_elim (λ m. m) (λ m. absurd (Memᴰ.not-nil m)))
add_unseen-Memᴰ seen (imp ∷ rest) imports i sub = elim (Bool-cases (any (text_eq imp) seen)) [
  | inl e ↦
      let there : (i ≡ imp) → Memᴰ i imports =
        λ q. subst (λ y. Memᴰ y imports) (sym q) (sub imp (any-text_eq imp seen e)) in
      let ih = add_unseen-Memᴰ seen rest imports i sub in
      rw e (ground (arith, ih, there, Memᴰ-cons i imp rest))
  | inr e ↦
      let ih =
        add_unseen-Memᴰ seen rest (imports ++ imp ∷ []) i
          (λ k m. Memᴰ.append_left (imp ∷ []) (sub k m)) in
      rw e (ground (arith, ih, Memᴰ-snoc i imp imports, Memᴰ-cons i imp rest))
]

-- A package that uses cgo or SWIG imports what it imported before, in front, and the imports of
-- cgo, and any other package imports what it imported before.
pub inject_imports :
    (pkg : Pkg) (i : Text)
    → ((added : List Text) × ((inject pkg).imports ≡ pkg.imports ++ added))
      × (Memᴰ i (inject pkg).imports
          ↔ (Memᴰ i pkg.imports ⊎ ((needs_cgo pkg.files ≡ true) × Memᴰ i cgo_imports)))
unfolding inject
inject_imports pkg i = elim (Bool-cases (needs_cgo pkg.files)) [
  | inl e ↦
      let members = add_unseen-Memᴰ pkg.imports cgo_imports pkg.imports i (λ k m. m) in
      rw e (
        add_unseen_prefix pkg.imports cgo_imports pkg.imports,
        (
          (λ m. ⊎_elim inl (λ n. inr (refl, n)) (members.0 m)),
          ⊎_elim (λ m. members.1 (inl m)) (λ (_, n). members.1 (inr n)),
        ),
      )
  | inr e ↦ rw e (([], sym (append-nil pkg.imports)), (inl, ⊎_elim (λ m. m) (λ (t, n). cc)))
]
