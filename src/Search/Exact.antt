-- ===== src/Search/Exact.antt =====
-- A walk with enough fuel marks what it comes to, each once.
use go2nix.Base.{
  ℕ, zero, suc, ◌≤◌, ◌<◌, List, [], ◌∷◌, ◌++◌, ◌≡◌, refl, sym, subst, inl, inr, ◌⊎◌, ⊎_elim, ◌↔◌,
  false, Bool-cases, Text, text_eq, any, any-text_eq, length, Memᴰ, Memᴰ-snoc, arith,
}
use mathlib.Core.List.Memᴰ
use go2nix.Base.Seen.{Memᴰ-any, unseen, unseen-lt, unseen_bound}
use go2nix.Toposort.Walk.{Leads, Reaches, Reaches-before}
use go2nix.NixDrv.Derivation.Merge.{Distinct, none_yet, one_more}
use go2nix.Search.{walk_each, depth_walk}

-- What every mark keeps, a walk keeps.
module _ {State : Type 0} (marked : State → List Text) (mark : Text → State → State)
    (next : Text → List Text) (P : State → Type 0)
    (kept : (p : Text) (s : State) → P s → P (mark p s)) where
  pub walk_each_keeps :
      (go : Text → State → State)
      → ((p : Text) (s : State) → P s → P (go p s))
      → (ps : List Text) (s : State) → P s
      → P (walk_each marked mark next go ps s)
  walk_each_keeps go step [] s h = h
  walk_each_keeps go step (p ∷ ps) s h = walk_each_keeps go step ps (go p s) (step p s h)

  pub depth_walk_keeps :
      (fuel : ℕ) (p : Text) (s : State) → P s → P (depth_walk marked mark next fuel p s)
  unfolding depth_walk
  depth_walk_keeps zero p s h = h
  depth_walk_keeps (suc fuel) p s h = elim (Bool-cases (any (text_eq p) (marked s))) [
    | inl e ↦ rw e h
    | inr e ↦ rw e (
        walk_each_keeps (depth_walk marked mark next fuel) (depth_walk_keeps fuel) (next p)
          (mark p s) (kept p s h))
  ]

module _ {State : Type 0} (marked : State → List Text) (mark : Text → State → State)
    (next : Text → List Text)
    (marks : (p : Text) (s : State) → marked (mark p s) ≡ marked s ++ p ∷ []) (universe : List Text)
    (closed : (p d : Text) → Memᴰ p universe → Memᴰ d (next p) → Memᴰ d universe) where
  -- From one state to a later one, after walks from the keys.
  record Walked (ps : List Text) (a b : State) : Type 0 where
    keeps : (q : Text) → Memᴰ q (marked a) → Memᴰ q (marked b)
    has : (q : Text) → Memᴰ q ps → Memᴰ q (marked b)
    explored :
        (q : Text)
        → Memᴰ q (marked b)
        → Memᴰ q (marked a) ⊎ ((d : Text) → Memᴰ d (next q) → Memᴰ d (marked b))
    sound :
        (q : Text)
        → Memᴰ q (marked b)
        → Memᴰ q (marked a) ⊎ ((r : Text) × Memᴰ r ps × Reaches next r q)
    distinct : Distinct (marked a) → Distinct (marked b)
    fewer : unseen universe (marked b) ≤ unseen universe (marked a)

  stay : (ps : List Text) (a : State) → ((q : Text) → Memᴰ q ps → Memᴰ q (marked a)) → Walked ps a a
  stay ps a h = record {
    keeps = λ q m. m;
    has = h;
    explored = λ q m. inl m;
    sound = λ q m. inl m;
    distinct = λ d. d;
    fewer = omega arith;
  }

  then_walk :
      (p : Text) (ps : List Text) (a b c : State)
      → Walked (p ∷ []) a b
      → Walked ps b c
      → Walked (p ∷ ps) a c
  then_walk p ps a b c v w = record {
    keeps = λ q m. w.keeps q (v.keeps q m);
    has = λ q m. elim (Memᴰ.cases_cons m) [
      | inl e ↦ w.keeps q (v.has q (Memᴰ.head e))
      | inr t ↦ w.has q t
    ];
    explored = λ q m. elim (w.explored q m) [
      | inr all ↦ inr all
      | inl old ↦ ⊎_elim inl (λ all. inr (λ d n. w.keeps d (all d n))) (v.explored q old)
    ];
    sound = λ q m. elim (w.sound q m) [
      | inr (r, n, reached) ↦ inr (r, Memᴰ.tail n, reached)
      | inl old ↦ elim (v.sound q old) [
        | inl older ↦ inl older
        | inr (r, n, reached) ↦ inr (r, Memᴰ.head (Memᴰ.eq_of_singleton n), reached)
      ]
    ];
    distinct = λ d. w.distinct (v.distinct d);
    fewer = omega (arith, v.fewer, w.fewer);
  }

  -- What is marked after one more mark.
  mark-Memᴰ : (q p : Text) (s : State) → Memᴰ q (marked (mark p s)) ↔ (Memᴰ q (marked s) ⊎ (q ≡ p))
  mark-Memᴰ q p s =
      subst (λ l. Memᴰ q l ↔ (Memᴰ q (marked s) ⊎ (q ≡ p))) (sym (marks p s))
        (Memᴰ-snoc q p (marked s))

  mark-lt :
      (p : Text) (s : State)
      → Memᴰ p universe
      → any (text_eq p) (marked s) ≡ false
      → unseen universe (marked (mark p s)) < unseen universe (marked s)
  mark-lt p s inside new =
      subst (λ l. unseen universe l < unseen universe (marked s)) (sym (marks p s))
        (unseen-lt universe p (marked s) inside new)

  -- The walk from a new key, after what comes next to it.
  enter :
      (p : Text) (a b : State)
      → any (text_eq p) (marked a) ≡ false
      → Walked (next p) (mark p a) b
      → Memᴰ p universe
      → Walked (p ∷ []) a b
  enter p a b new w inside = record {
    keeps = λ q m. w.keeps q ((mark-Memᴰ q p a).1 (inl m));
    has = λ q m. w.keeps q ((mark-Memᴰ q p a).1 (inr (Memᴰ.eq_of_singleton m)));
    explored = λ q m. elim (w.explored q m) [
      | inr all ↦ inr all
      | inl old ↦
          ⊎_elim inl (λ e. inr (λ d n. w.has d (subst (λ x. Memᴰ d (next x)) e n)))
            ((mark-Memᴰ q p a).0 old)
    ];
    sound = λ q m. elim (w.sound q m) [
      | inl old ↦ ⊎_elim inl (λ e. inr (p, Memᴰ.head refl, inl (sym e))) ((mark-Memᴰ q p a).0 old)
      | inr (r, n, reached) ↦ inr (p, Memᴰ.head refl, inr (Reaches-before next n reached))
    ];
    distinct = λ d.
        w.distinct
          (subst Distinct (sym (marks p a)) (one_more d (λ m. cc (new, Memᴰ-any p (marked a) m))));
    fewer = omega (arith, w.fewer, mark-lt p a inside new);
  }

  walk_each-Walked :
      (go : Text → State → State) (bound : ℕ)
      → ((p : Text) (a : State)
          → Memᴰ p universe
          → unseen universe (marked a) < bound
          → Walked (p ∷ []) a (go p a))
      → (ps : List Text) (a : State) → ((p : Text) → Memᴰ p ps → Memᴰ p universe)
      → unseen universe (marked a) < bound
      → Walked ps a (walk_each marked mark next go ps a)
  walk_each-Walked go bound step [] a inside enough = stay [] a (λ q m. absurd (Memᴰ.not-nil m))
  walk_each-Walked go bound step (p ∷ ps) a inside enough =
      let v = step p a (inside p (Memᴰ.head refl)) enough in
      then_walk p ps a (go p a) (walk_each marked mark next go ps (go p a)) v (
        walk_each-Walked go bound step ps (go p a) (λ q m. inside q (Memᴰ.tail m))
          (omega (arith, v.fewer)))

  depth_walk-Walked :
      (fuel : ℕ) (p : Text) (a : State)
      → Memᴰ p universe
      → unseen universe (marked a) < fuel
      → Walked (p ∷ []) a (depth_walk marked mark next fuel p a)
  unfolding depth_walk
  depth_walk-Walked zero p a inside enough = absurd (omega arith)
  depth_walk-Walked (suc fuel) p a inside enough = elim (Bool-cases (any (text_eq p) (marked a))) [
    | inl e ↦ rw e (
        stay (p ∷ []) a (λ q m.
          subst (λ x. Memᴰ x (marked a)) (sym (Memᴰ.eq_of_singleton m))
            (any-text_eq p (marked a) e)))
    | inr e ↦ rw e (
        enter p a _ e
          (walk_each-Walked (depth_walk marked mark next fuel) fuel (depth_walk-Walked fuel)
            (next p) (mark p a) (λ d m. closed p d inside m) (omega (arith, mark-lt p a inside e)))
          inside)
  ]

  -- With more fuel than there are keys, a walk from keys, at a state that has marked none, marks
  -- those that they come to, themselves among them, each once.
  pub walk_each_exact :
      (fuel : ℕ) (ps : List Text) (a : State)
      → ((p : Text) → Memᴰ p ps → Memᴰ p universe)
      → length universe < fuel
      → marked a ≡ []
      → ((q : Text)
          → Memᴰ q (marked (walk_each marked mark next (depth_walk marked mark next fuel) ps a))
            ↔ ((r : Text) × Memᴰ r ps × Reaches next r q))
        × Distinct (marked (walk_each marked mark next (depth_walk marked mark next fuel) ps a))
  walk_each_exact fuel ps a inside enough none_marked =
      let b = walk_each marked mark next (depth_walk marked mark next fuel) ps a in
      let w =
        walk_each-Walked (depth_walk marked mark next fuel) fuel (depth_walk-Walked fuel) ps a
          inside (omega (arith, unseen_bound universe (marked a))) in
      let old_none : (q : Text) → ¬ Memᴰ q (marked a) =
        λ q m. Memᴰ.not-nil (subst (Memᴰ q) none_marked m) in
      (
        λ q. (
          λ m. ⊎_elim (λ old. absurd (old_none q old)) (λ found. found) (w.sound q m),
          λ (r, m, reached). elim reached [
            | inl e ↦ subst (λ x. Memᴰ x (marked b)) e (w.has r m)
            | inr lead ↦
                led (marked b)
                  (λ q d m n.
                    ⊎_elim (λ old. absurd (old_none q old)) (λ all. all d n) (w.explored q m))
                  lead (w.has r m)
          ],
        ),
        w.distinct (subst Distinct (sym none_marked) none_yet),
      )
    where
      led :
          (all : List Text)
          → ((q d : Text) → Memᴰ q all → Memᴰ d (next q) → Memᴰ d all)
          → {r q : Text} → Leads next r q
          → Memᴰ r all
          → Memᴰ q all
      led all h (Leads.edge {b = q} m) i = h _ q i m
      led all h (Leads.via {b = b} {c = q} v m) i = h b q (led all h v i) m
