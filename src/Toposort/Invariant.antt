-- ===== src/Toposort/Invariant.antt =====
-- The steps of `visit`, and the rule by which a property of its calls goes over to the loops.
use go2nix.Base.{
  ℕ, zero, suc, List, [], ◌∷◌, ◌≡◌, refl, sym, subst, ◌∙◌, ◌⊎◌, inl, inr, Text, Dict, Result, ok,
  err, ◌>>=◌, ok_of_bind,
}
use go2nix.Toposort.{
  Mark, unvisited, visiting, visited, State, SortError, import_cycle, begin, finish, visit_all,
  visit,
}

pub Mark-cases : (m : Mark) → (m ≡ unvisited) ⊎ ((m ≡ visiting) ⊎ (m ≡ visited))
Mark-cases unvisited = inl refl
Mark-cases visiting = inr (inl refl)
Mark-cases visited = inr (inr refl)

module _ {T : Type 0} (nodes : Dict T) (deps : Text → List Text) where
  abbrev pub visit_deps : ℕ → Text → State T → Result SortError (State T)
  visit_deps fuel key s =
      visit_all nodes deps (visit nodes deps fuel) (deps key) (begin nodes deps key s)

  module _ (fuel : ℕ) (key : Text) (s : State T) where
    pub visit-visited : s.mark key ≡ visited → visit nodes deps (suc fuel) key s ≡ ok s
    unfolding visit
    visit-visited e = rw (e, visit)

    pub visit-visiting :
        s.mark key ≡ visiting → visit nodes deps (suc fuel) key s ≡ err (import_cycle key)
    unfolding visit
    visit-visiting e = rw (e, visit)

    pub visit-unvisited :
        s.mark key ≡ unvisited
        → visit nodes deps (suc fuel) key s
          ≡ (visit_deps fuel key s >>= λ s'. ok (finish nodes deps key s'))
    unfolding visit
    visit-unvisited e = rw (e, visit)

  -- A successful call found the key finished, or visited its dependencies and finished it.
  pub visit-eq-ok :
      (fuel : ℕ) (key : Text) (s t : State T)
      → visit nodes deps (suc fuel) key s ≡ ok t
      → (s.mark key ≡ visited) × (s ≡ t)
        ⊎ ((u : State T) × (s.mark key ≡ unvisited)
            × (visit_deps fuel key s ≡ ok u)
            × (finish nodes deps key u ≡ t))
  visit-eq-ok fuel key s t h = elim (Mark-cases (s.mark key)) [
    | inl e ↦
        let record { value = u; came = p; went = q } =
          ok_of_bind _ (visit_deps fuel key s) (sym (visit-unvisited fuel key s e) ∙ h) in
        inr (u, e, p, cc)
    | inr (inl e) ↦ cc (visit-visiting fuel key s e)
    | inr (inr e) ↦ inl (e, cc (visit-visited fuel key s e))
  ]

  -- What to show of a relation between the states before and after a loop over the keys.
  pub record Rule (R : State T → State T → List Text → Type 0) : Type 0 where
    pub nil : (s : State T) → R s s []
    pub chain :
        (s t u : State T) (key : Text) (rest : List Text)
        → R s t (key ∷ [])
        → R t u rest
        → R s u (key ∷ rest)
    pub known : (s : State T) (key : Text) → s.mark key ≡ visited → R s s (key ∷ [])
    pub fresh :
        (s u : State T) (key : Text)
        → s.mark key ≡ unvisited
        → R (begin nodes deps key s) u (deps key)
        → R s (finish nodes deps key u) (key ∷ [])

  module _ {R : State T → State T → List Text → Type 0} (rule : Rule R) where
    open rule use {nil, chain, known, fresh}

    loop_rule :
        (go : Text → State T → Result SortError (State T))
        → ((key : Text) (s t : State T) → go key s ≡ ok t → R s t (key ∷ []))
        → (ks : List Text) (s t : State T) → visit_all nodes deps go ks s ≡ ok t
        → R s t ks
    unfolding visit_all
    loop_rule go each [] s t h = let e : s ≡ t = cc in subst (λ u. R s u []) e (nil s)
    loop_rule go each (key ∷ rest) s t h =
        let record { value = u; came = p; went = q } =
          ok_of_bind (visit_all nodes deps go rest) (go key s) h in
        chain s u t key rest (each key s u p) (loop_rule go each rest u t q)

    pub visit_rule :
        (fuel : ℕ) (key : Text) (s t : State T)
        → visit nodes deps fuel key s ≡ ok t
        → R s t (key ∷ [])
    unfolding visit
    visit_rule zero key s t h = cc
    visit_rule (suc fuel) key s t h = elim (visit-eq-ok fuel key s t h) [
      | inl (e, same) ↦ subst (λ u. R s u (key ∷ [])) same (known s key e)
      | inr (u, e, p, same) ↦
          subst (λ v. R s v (key ∷ [])) same
            (fresh s u key e (loop_rule _ (visit_rule fuel) (deps key) _ u p))
    ]

    pub visit_all_rule :
        (fuel : ℕ) (ks : List Text) (s t : State T)
        → visit_all nodes deps (visit nodes deps fuel) ks s ≡ ok t
        → R s t ks
    visit_all_rule fuel = loop_rule (visit nodes deps fuel) (visit_rule fuel)
