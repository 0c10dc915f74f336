-- ===== src/Toposort/Cycle.antt =====
-- The error of the sort: it is returned for a cycle only, and no cycle passes unnoticed.
use go2nix.Base.{
  ℕ, zero, suc, List, [], ◌∷◌, ◌≡◌, refl, sym, subst, ◌∙◌, ◌⊎◌, inl, inr, Text, sort-Memᴰ, Dict,
  keys, Result, ok, err, ◌>>=◌, Memᴰ,
}
use mathlib.Core.List.Memᴰ
use go2nix.Toposort.{
  unvisited, visiting, State, SortError, import_cycle, begin, visit_all, visit, start, toposort,
}
use go2nix.Toposort.Invariant.{
  Mark-cases, visit_deps, visit-visited, visit-visiting, visit-unvisited,
}
use go2nix.Toposort.Busy.{visit-Kept, begin-visiting}
use go2nix.Toposort.Order.{toposort_ordered}
use go2nix.Toposort.Walk.{Leads, edge, via, Reaches, Reaches-before, closed_leads, closed_acyclic}

-- When the sort succeeds, no key that the keys of the map depend on, however indirectly, depends
-- on itself.
pub toposort_acyclic :
    {T : Type 0} (nodes : Dict T) (deps : Text → List Text) (fuel : ℕ) (result : List T)
    (k c : Text)
    → toposort nodes deps fuel ≡ ok result
    → Memᴰ k (keys nodes)
    → Reaches deps k c
    → ¬ Leads deps c c
toposort_acyclic nodes deps fuel result k c h m r =
    let (done, _, closed, has) = toposort_ordered nodes deps fuel result h in
    elim r [
      | inl e ↦ closed_acyclic deps done closed (subst (λ x. Memᴰ x done) e (has k m))
      | inr w ↦ closed_acyclic deps done closed (closed_leads deps done closed (has k m) w)
    ]

not_visiting {ℓ} : {A : Type ℓ} → unvisited ≡ visiting → A
not_visiting h = cc

pub bind_err :
    {A B : Type 0} {e : SortError} (f : A → B) (r : Result SortError A)
    → (r >>= λ s. ok (f s)) ≡ err e
    → r ≡ err e
bind_err f (ok s) h = cc
bind_err f (err e) h = cc

module _ {T : Type 0} (nodes : Dict T) (deps : Text → List Text) where
  pub visit-eq-err :
      (fuel : ℕ) (key : Text) (s : State T) (e : SortError)
      → visit nodes deps (suc fuel) key s ≡ err e
      → (s.mark key ≡ visiting) × (e ≡ import_cycle key)
        ⊎ (s.mark key ≡ unvisited) × (visit_deps nodes deps fuel key s ≡ err e)
  visit-eq-err fuel key s e h = elim (Mark-cases (s.mark key)) [
    | inl m ↦ inr (m, bind_err _ _ (sym (visit-unvisited nodes deps fuel key s m) ∙ h))
    | inr (inl m) ↦ inl (m, cc (visit-visiting nodes deps fuel key s m))
    | inr (inr m) ↦ cc (visit-visited nodes deps fuel key s m)
  ]

  -- The loop fails at the first key whose visit fails.
  pub visit_all-eq-err :
      (fuel : ℕ) (key : Text) (rest : List Text) (s : State T) (e : SortError)
      → visit_all nodes deps (visit nodes deps fuel) (key ∷ rest) s ≡ err e
      → (visit nodes deps fuel key s ≡ err e)
        ⊎ ((t : State T) × (visit nodes deps fuel key s ≡ ok t)
            × (visit_all nodes deps (visit nodes deps fuel) rest t ≡ err e))
  unfolding visit_all
  visit_all-eq-err fuel key rest s e h = go (visit nodes deps fuel key s) refl h
    where
      go :
          (r : Result SortError (State T))
          → visit nodes deps fuel key s ≡ r
          → (r >>= visit_all nodes deps (visit nodes deps fuel) rest) ≡ err e
          → (visit nodes deps fuel key s ≡ err e)
            ⊎ ((t : State T) × (visit nodes deps fuel key s ≡ ok t)
                × (visit_all nodes deps (visit nodes deps fuel) rest t ≡ err e))
      go (ok t) q h' = inr (t, q, h')
      go (err e') q h' = inl (cc)

  -- Every key that is being visited leads to the keys still to visit.
  abbrev Stacked : State T → List Text → Type 0
  Stacked s ks = (v k : Text) → s.mark v ≡ visiting → Memᴰ k ks → Leads deps v k

  abbrev Found : List Text → Text → Type 0
  Found ks c = Leads deps c c × ((k : Text) × Memᴰ k ks × Reaches deps k c)

  loop_cycle :
      (fuel : ℕ) (c : Text)
      → ((key : Text) (s : State T)
          → Stacked s (key ∷ [])
          → visit nodes deps fuel key s ≡ err (import_cycle c)
          → Found (key ∷ []) c)
      → (ks : List Text) (s : State T) → Stacked s ks
      → visit_all nodes deps (visit nodes deps fuel) ks s ≡ err (import_cycle c)
      → Found ks c
  loop_cycle fuel c one [] s st h = unfold visit_all in cc
  loop_cycle fuel c one (key ∷ rest) s st h = elim (visit_all-eq-err fuel key rest s _ h) [
    | inl p ↦ let (w, (k, m, r)) = one key s (λ v k b m. st v k b (into m)) p in (w, (k, into m, r))
    | inr (t, p, q) ↦
        let kept = visit-Kept nodes deps fuel key s t p in
        let (w, (k, m, r)) =
          loop_cycle fuel c one rest t (λ v k b m. st v k ((kept.busy v).0 b) (Memᴰ.tail m)) q in
        (w, (k, Memᴰ.tail m, r))
  ]
    where
      into : {k : Text} → Memᴰ k (key ∷ []) → Memᴰ k (key ∷ rest)
      into m = Memᴰ.head (Memᴰ.eq_of_singleton m)

  visit_cycle :
      (fuel : ℕ) (c key : Text) (s : State T)
      → Stacked s (key ∷ [])
      → visit nodes deps fuel key s ≡ err (import_cycle c)
      → Found (key ∷ []) c
  visit_cycle zero c key s st h = unfold visit in cc
  visit_cycle (suc fuel) c key s st h = elim (visit-eq-err fuel key s _ h) [
    | inl (b, e) ↦
        let same : key ≡ c = cc in
        (
          subst (λ x. Leads deps x x) same (st key key b (Memᴰ.head refl)),
          (key, Memᴰ.head refl, inl same),
        )
    | inr (f, p) ↦
        let (w, (d, m, r)) = loop_cycle fuel c (visit_cycle fuel c) (deps key) _ (below f) p in
        (w, (key, Memᴰ.head refl, inr (Reaches-before deps m r)))
  ]
    where
      below : s.mark key ≡ unvisited → Stacked (begin nodes deps key s) (deps key)
      below f v d b m = elim (begin-visiting nodes deps s key v b) [
        | inl e ↦ edge (subst (λ x. Memᴰ d (deps x)) e m)
        | inr b' ↦ via (st v key b' (Memᴰ.head refl)) m
      ]

-- When the sort returns the cycle error for a key, that key depends on itself, directly or through
-- others, and it is a key of the map or one that a key of the map depends on.
pub toposort_cycle :
    {T : Type 0} (nodes : Dict T) (deps : Text → List Text) (fuel : ℕ) (c : Text)
    → toposort nodes deps fuel ≡ err (import_cycle c)
    → Leads deps c c × ((k : Text) × Memᴰ k (keys nodes) × Reaches deps k c)
unfolding toposort
toposort_cycle nodes deps fuel c h =
    let (w, (k, m, r)) =
      loop_cycle nodes deps fuel c (visit_cycle nodes deps fuel c) _ (start nodes deps)
        (λ v k b _. not_visiting b) (bind_err _ _ h) in
    (w, (k, (sort-Memᴰ k _).0 m, r))
