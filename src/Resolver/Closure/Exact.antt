-- ===== src/Resolver/Closure/Exact.antt =====
-- What the closure of a main package holds, and in which order.
use go2nix.Base.{
  suc, List, [], ◌∷◌, ◌≡◌, ◌≢◌, refl, sym, subst, inl, inr, ◌⊎◌, ⊎_elim, ◌↔◌, true, Bool-cases,
  some, Option-cases, Text, text_leb, text_leb_total, text_leb_trans, length, Dict, lookup, keys,
  Memᴰ, Memᴰ-cons, All,
}
use mathlib.Core.List.Memᴰ
use go2nix.Toposort.Walk.{Leads, Reaches}
use go2nix.Graph.{imports_or_none, imports_in}
use go2nix.Resolver.Package.{Package}
use go2nix.Resolver.Closure.{
  first_walk, insert_package, sort_packages, search_queue, transitive_closure,
}
use go2nix.Resolver.Closure.Search.{Apart, IsFound, search-IsFound}

-- One package before another one by import path.
abbrev pub Before : Package → Package → Type 0
Before p q = (text_leb p.import_path q.import_path ≡ true) × (p.import_path ≢ q.import_path)

abbrev pub Ascending : List Package → Type 0
Ascending [] = Unit
Ascending (p ∷ ps) = All (Before p) ps × Ascending ps

module _ (P : Package → Type 0) where
  insert_package-All :
      (p : Package) (qs : List Package) → P p → All P qs → All P (insert_package p qs)
  insert_package-All p [] h a = (h, tt)
  insert_package-All p (q ∷ qs) h (b, a) =
      elim (Bool-cases (text_leb p.import_path q.import_path)) [
        | inl e ↦ rw e (h, (b, a))
        | inr e ↦ rw e (b, insert_package-All p qs h a)
      ]

  sort_packages-All : (ps : List Package) → All P ps → All P (sort_packages ps)
  unfolding sort_packages
  sort_packages-All [] a = tt
  sort_packages-All (p ∷ ps) (h, a) =
      insert_package-All p (sort_packages ps) h (sort_packages-All ps a)

insert_package-Memᴰ :
    (x p : Package) (qs : List Package) → Memᴰ x (insert_package p qs) ↔ ((x ≡ p) ⊎ Memᴰ x qs)
insert_package-Memᴰ x p [] = Memᴰ-cons x p []
insert_package-Memᴰ x p (q ∷ qs) = elim (Bool-cases (text_leb p.import_path q.import_path)) [
  | inl e ↦ rw e (Memᴰ-cons x p (q ∷ qs))
  | inr e ↦
      let ih = insert_package-Memᴰ x p qs in
      rw e (
        λ m. elim (Memᴰ.cases_cons m) [
          | inl h ↦ inr (Memᴰ.head h)
          | inr t ↦ ⊎_elim inl (λ n. inr (Memᴰ.tail n)) (ih.0 t)
        ],
        λ k. elim k [
          | inl h ↦ Memᴰ.tail (ih.1 (inl h))
          | inr m ↦ elim (Memᴰ.cases_cons m) [
            | inl h ↦ Memᴰ.head h
            | inr t ↦ Memᴰ.tail (ih.1 (inr t))
          ]
        ],
      )
]

sort_packages-Memᴰ : (x : Package) (ps : List Package) → Memᴰ x (sort_packages ps) ↔ Memᴰ x ps
unfolding sort_packages
sort_packages-Memᴰ x [] = (λ m. m, λ m. m)
sort_packages-Memᴰ x (p ∷ ps) =
    let ih = sort_packages-Memᴰ x ps in
    let step = insert_package-Memᴰ x p (sort_packages ps) in
    let cons = Memᴰ-cons x p ps in
    (
      λ m. cons.1 (⊎_elim inl (λ n. inr (ih.0 n)) (step.0 m)),
      λ m. step.1 (⊎_elim inl (λ n. inr (ih.1 n)) (cons.0 m)),
    )

Before-trans_All :
    (p q : Package) (qs : List Package)
    → text_leb p.import_path q.import_path ≡ true
    → All (Before q) qs
    → All (λ r. p.import_path ≢ r.import_path) qs
    → All (Before p) qs
Before-trans_All p q [] e a n = tt
Before-trans_All p q (r ∷ qs) e ((b, _), a) (m, n) = (
  (text_leb_trans p.import_path q.import_path r.import_path e b, m),
  Before-trans_All p q qs e a n,
)

insert_package-Ascending :
    (p : Package) (qs : List Package)
    → All (λ q. p.import_path ≢ q.import_path) qs
    → Ascending qs
    → Ascending (insert_package p qs)
insert_package-Ascending p [] n a = (tt, tt)
insert_package-Ascending p (q ∷ qs) (m, n) (first, a) =
    elim (Bool-cases (text_leb p.import_path q.import_path)) [
      | inl e ↦ rw e (((e, m), Before-trans_All p q qs e first n), (first, a))
      | inr e ↦ rw e (
        insert_package-All (Before q) p qs
            (text_leb_total p.import_path q.import_path e, λ h. m (sym h)) first,
        insert_package-Ascending p qs n a,
      )
    ]

sort_packages-Ascending : (ps : List Package) → Apart ps → Ascending (sort_packages ps)
unfolding sort_packages
sort_packages-Ascending [] a = tt
sort_packages-Ascending (p ∷ ps) (n, a) =
    insert_package-Ascending p (sort_packages ps)
      (sort_packages-All (λ q. p.import_path ≢ q.import_path) ps n) (sort_packages-Ascending ps a)

module _ (graph : Dict Package)
    (matches : (k : Text) (pkg : Package) → lookup k graph ≡ some pkg → pkg.import_path ≡ k)
    (main_pkg : Package) (known : lookup main_pkg.import_path graph ≡ some main_pkg) where
  imports_of :
      (k imp : Text)
      → Memᴰ imp (imports_in graph k)
      → (pkg : Package) × (lookup k graph ≡ some pkg) × Memᴰ imp pkg.imports
  imports_of k imp m = elim (Option-cases (lookup k graph)) [
    | inl n ↦ absurd (Memᴰ.not-nil (subst (λ o. Memᴰ imp (imports_or_none o)) n m))
    | inr (pkg, n) ↦ (pkg, n, subst (λ o. Memᴰ imp (imports_or_none o)) n m)
  ]

  leads_found :
      (start : List Text) (ps : List Package)
      → IsFound graph matches main_pkg start ps
      → Memᴰ main_pkg ps
      → {k : Text} → Leads (imports_in graph) main_pkg.import_path k
      → (pkg : Package) → lookup k graph ≡ some pkg
      → Memᴰ pkg ps
  leads_found start ps f has (Leads.edge {b = k} m) pkg l =
      let (p, n, i) = imports_of main_pkg.import_path k m in
      let same : main_pkg ≡ p = cc (known, n) in
      f.closed p k pkg (subst (λ x. Memᴰ x ps) same has) i l
  leads_found start ps f has (Leads.via {b = b} {c = k} walk m) pkg l =
      let (p, n, i) = imports_of b k m in f.closed p k pkg (leads_found start ps f has walk p n) i l

  -- For a graph whose keys are the import paths of its packages, the closure of a main package of it
  -- is the packages of the graph that the main package reaches by imports, itself among them, each
  -- once, in the order of their import paths.
  pub transitive_closure_exact :
      ((pkg : Package)
        → Memᴰ pkg (transitive_closure graph main_pkg) ↔ (
            (lookup pkg.import_path graph ≡ some pkg)
            × Reaches (imports_in graph) main_pkg.import_path pkg.import_path))
      × Ascending (transitive_closure graph main_pkg)
  unfolding transitive_closure
  transitive_closure_exact =
      let all = search_queue graph (suc (suc (length (keys graph)))) (first_walk main_pkg) in
      let f = search-IsFound graph matches main_pkg known in
      let (m, n, named) = f.keeps main_pkg.import_path (Memᴰ.head refl) in
      let same : m ≡ main_pkg = cc ((f.found m n).0, named, known) in
      let has : Memᴰ main_pkg all = subst (λ x. Memᴰ x all) same n in
      (
        λ pkg. (
          λ i. f.found pkg ((sort_packages-Memᴰ pkg all).0 i),
          λ (l, reached). (sort_packages-Memᴰ pkg all).1 (elim reached [
            | inl e ↦ let it : main_pkg ≡ pkg = cc (known, l, e) in subst (λ x. Memᴰ x all) it has
            | inr walk ↦ leads_found (main_pkg.import_path ∷ []) all f has walk pkg l
          ]),
        ),
        sort_packages-Ascending all f.apart,
      )
