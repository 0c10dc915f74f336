-- ===== src/Resolver/Closure/Search.antt =====
-- The loop over the queue finds what a main package reaches.
use go2nix.Base.{
  ℕ, zero, suc, ◌+◌, ◌≤◌, ◌<◌, List, [], ◌∷◌, ◌++◌, ◌≡◌, ◌≢◌, refl, sym, ap, subst, ◌∙◌, inl, inr,
  ◌⊎◌, ⊎_elim, false, Bool-cases, some, Option-cases, Text, text_eq, any, any-text_eq, length,
  List-cases, length-append, Dict, lookup, keys, keys-Memᴰ, Memᴰ, Memᴰ-snoc, All, arith,
}
use mathlib.Core.List.Memᴰ
use go2nix.Base.Seen.{Memᴰ-any, unseen, unseen-lt, unseen_bound}
use go2nix.Toposort.Walk.{Leads, Reaches}
use go2nix.Graph.{imports_or_none, imports_in}
use go2nix.Resolver.Package.{Package}
use go2nix.Resolver.Closure.{Walk, add_dep, first_walk, visit_import, visit_imports, search_queue}

-- A list of packages with different import paths.
abbrev pub Apart : List Package → Type 0
Apart [] = Unit
Apart (p ∷ ps) = All (λ q. p.import_path ≢ q.import_path) ps × Apart ps

Apart-snoc :
    (ps : List Package) (d : Package)
    → Apart ps
    → ((p : Package) → Memᴰ p ps → p.import_path ≢ d.import_path)
    → Apart (ps ++ d ∷ [])
Apart-snoc [] d h new = (tt, tt)
Apart-snoc (p ∷ ps) d (first, h) new =
    (All-snoc ps first (new p (Memᴰ.head refl)), Apart-snoc ps d h (λ q m. new q (Memᴰ.tail m)))
  where
    All-snoc :
        (qs : List Package)
        → All (λ q. p.import_path ≢ q.import_path) qs
        → p.import_path ≢ d.import_path
        → All (λ q. p.import_path ≢ q.import_path) (qs ++ d ∷ [])
    All-snoc [] a n = (n, tt)
    All-snoc (q ∷ qs) (b, a) n = (b, All-snoc qs a n)

module _ (graph : Dict Package)
    (matches : (k : Text) (pkg : Package) → lookup k graph ≡ some pkg → pkg.import_path ≡ k)
    (main_pkg : Package) where
  abbrev pub Reached : Text → Type 0
  Reached k = Reaches (imports_in graph) main_pkg.import_path k

  -- The imports of a package that are packages of the graph have been seen.
  abbrev Explored : List Text → Package → Type 0
  Explored seen pkg =
      (imp : Text) (dep : Package)
      → Memᴰ imp pkg.imports
      → lookup imp graph ≡ some dep
      → Memᴰ imp seen

  -- The state of the loop, but for the packages that are exempt.
  record Inv (exempt : Package → Type 0) (w : Walk) : Type 0 where
    found :
        (pkg : Package)
        → Memᴰ pkg w.closure
        → (lookup pkg.import_path graph ≡ some pkg) × Reached pkg.import_path
    in_seen : (pkg : Package) → Memᴰ pkg w.closure → Memᴰ pkg.import_path w.seen
    seen_in :
        (k : Text) → Memᴰ k w.seen → (pkg : Package) × Memᴰ pkg w.closure × (pkg.import_path ≡ k)
    queued : (pkg : Package) → Memᴰ pkg w.queue → Memᴰ pkg w.closure
    explored :
        (pkg : Package) → Memᴰ pkg w.closure → Memᴰ pkg w.queue ⊎ exempt pkg ⊎ Explored w.seen pkg
    apart : Apart w.closure

  -- A state that has at least what another one has seen, and at most its weight.
  record Grows (v w : Walk) : Type 0 where
    seen : (k : Text) → Memᴰ k v.seen → Memᴰ k w.seen
    weight :
        length w.queue + unseen (keys graph) w.seen ≤ length v.queue + unseen (keys graph) v.seen

  add_dep-Inv :
      (exempt : Package → Type 0) (imp : Text) (dep : Package) (w : Walk)
      → Inv exempt w
      → Reached imp
      → lookup imp graph ≡ some dep
      → any (text_eq imp) w.seen ≡ false
      → Inv exempt (add_dep graph imp dep w)
  add_dep-Inv exempt imp dep w v reached l e =
      let named = matches imp dep l in
      record {
        found = λ pkg m. elim ((Memᴰ-snoc pkg dep w.closure).0 m) [
          | inl old ↦ v.found pkg old
          | inr q ↦
              subst (λ x. (lookup x.import_path graph ≡ some x) × Reached x.import_path) (sym q)
                (subst (λ k. (lookup k graph ≡ some dep) × Reached k) (sym named) (l, reached))
        ];
        in_seen = λ pkg m. elim ((Memᴰ-snoc pkg dep w.closure).0 m) [
          | inl old ↦ (Memᴰ-snoc pkg.import_path imp w.seen).1 (inl (v.in_seen pkg old))
          | inr q ↦
              (Memᴰ-snoc pkg.import_path imp w.seen).1 (inr (ap (λ x. x.import_path) q ∙ named))
        ];
        seen_in = λ k m. elim ((Memᴰ-snoc k imp w.seen).0 m) [
          | inl old ↦
              let (pkg, n, q) = v.seen_in k old in (pkg, (Memᴰ-snoc pkg dep w.closure).1 (inl n), q)
          | inr q ↦ (dep, (Memᴰ-snoc dep dep w.closure).1 (inr refl), named ∙ sym q)
        ];
        queued = λ pkg m. elim ((Memᴰ-snoc pkg dep w.queue).0 m) [
          | inl old ↦ (Memᴰ-snoc pkg dep w.closure).1 (inl (v.queued pkg old))
          | inr q ↦ (Memᴰ-snoc pkg dep w.closure).1 (inr q)
        ];
        explored = λ pkg m. elim ((Memᴰ-snoc pkg dep w.closure).0 m) [
          | inr q ↦ inl ((Memᴰ-snoc pkg dep w.queue).1 (inr q))
          | inl old ↦ elim (v.explored pkg old) [
            | inl waits ↦ inl ((Memᴰ-snoc pkg dep w.queue).1 (inl waits))
            | inr (inl x) ↦ inr (inl x)
            | inr (inr seen) ↦
                inr (inr (λ i d n f. (Memᴰ-snoc i imp w.seen).1 (inl (seen i d n f))))
          ]
        ];
        apart = Apart-snoc w.closure dep v.apart (λ p m q.
            cc (e, Memᴰ-any imp w.seen (subst (λ k. Memᴰ k w.seen) (q ∙ named) (v.in_seen p m))));
      }

  add_dep-Grows :
      (imp : Text) (dep : Package) (w : Walk)
      → lookup imp graph ≡ some dep
      → any (text_eq imp) w.seen ≡ false
      → Grows w (add_dep graph imp dep w)
  add_dep-Grows imp dep w l e = record {
    seen = λ k m. (Memᴰ-snoc k imp w.seen).1 (inl m);
    weight = omega (
      arith,
      length-append {A = Package} w.queue (dep ∷ []),
      unseen-lt (keys graph) imp w.seen (keys-Memᴰ imp graph l) e,
    );
  }

  Grows-refl : (w : Walk) → Grows w w
  Grows-refl w = record { seen = λ k m. m; weight = omega arith }

  visit_import_lem :
      (exempt : Package → Type 0) (imp : Text) (w : Walk)
      → Inv exempt w
      → Reached imp
      → Inv exempt (visit_import graph imp w)
        × Grows w (visit_import graph imp w)
        × ((dep : Package) → lookup imp graph ≡ some dep → Memᴰ imp (visit_import graph imp w).seen)
  unfolding visit_import
  visit_import_lem exempt imp w v reached = elim (Bool-cases (any (text_eq imp) w.seen)) [
    | inl e ↦ rw e (v, Grows-refl w, λ dep l. any-text_eq imp w.seen e)
    | inr e ↦ elim (Option-cases (lookup imp graph)) [
      | inl n ↦ rw (e, n) (v, Grows-refl w, λ dep l. cc)
      | inr (dep, l) ↦
          rw (e, l)
            (
              add_dep-Inv exempt imp dep w v reached l e,
              add_dep-Grows imp dep w l e,
              λ _ _. (Memᴰ-snoc imp imp w.seen).1 (inr refl),
            )
    ]
  ]

  Grows-trans : {u v w : Walk} → Grows u v → Grows v w → Grows u w
  Grows-trans g h = record {
    seen = λ k m. h.seen k (g.seen k m);
    weight = omega (arith, g.weight, h.weight);
  }

  visit_imports_lem :
      (exempt : Package → Type 0) (imports : List Text) (w : Walk)
      → Inv exempt w
      → ((imp : Text) → Memᴰ imp imports → Reached imp)
      → Inv exempt (visit_imports graph imports w)
        × Grows w (visit_imports graph imports w)
        × ((imp : Text) (dep : Package)
            → Memᴰ imp imports
            → lookup imp graph ≡ some dep
            → Memᴰ imp (visit_imports graph imports w).seen)
  unfolding visit_imports
  visit_imports_lem exempt [] w v reached =
      (v, Grows-refl w, λ imp dep m l. absurd (Memᴰ.not-nil m))
  visit_imports_lem exempt (i ∷ imports) w v reached =
      let (v', g, now) = visit_import_lem exempt i w v (reached i (Memᴰ.head refl)) in
      let (v'', g', later) =
        visit_imports_lem exempt imports (visit_import graph i w) v'
          (λ imp m. reached imp (Memᴰ.tail m)) in
      (
        v'',
        Grows-trans g g',
        λ imp dep m l. elim (Memᴰ.cases_cons m) [
          | inl q ↦ g'.seen imp (
              subst (λ k. Memᴰ k (visit_import graph i w).seen) (sym q)
                (now dep (ap (λ k. lookup k graph) (sym q) ∙ l)))
          | inr t ↦ later imp dep t l
        ],
      )

  pop-Inv :
      (w : Walk) (cur : Package) (rest : List Package)
      → w.queue ≡ cur ∷ rest
      → Inv (λ _. ⊥) w
      → Inv (λ p. p ≡ cur) (record w { queue = rest })
  pop-Inv w cur rest q v = record {
    found = v.found;
    in_seen = v.in_seen;
    seen_in = v.seen_in;
    queued = λ pkg m. v.queued pkg (subst (Memᴰ pkg) (sym q) (Memᴰ.tail m));
    explored = λ pkg m. elim (v.explored pkg m) [
      | inl waits ↦ elim (Memᴰ.cases_cons (subst (Memᴰ pkg) q waits)) [
        | inl e ↦ inr (inl e)
        | inr t ↦ inl t
      ]
      | inr (inl x) ↦ absurd x
      | inr (inr seen) ↦ inr (inr seen)
    ];
    apart = v.apart;
  }

  settle-Inv :
      (w : Walk) (cur : Package) → Inv (λ p. p ≡ cur) w → Explored w.seen cur → Inv (λ _. ⊥) w
  settle-Inv w cur v done = record {
    found = v.found;
    in_seen = v.in_seen;
    seen_in = v.seen_in;
    queued = v.queued;
    explored = λ pkg m. elim (v.explored pkg m) [
      | inl waits ↦ inl waits
      | inr (inl e) ↦ inr (inr (subst (Explored w.seen) (sym e) done))
      | inr (inr seen) ↦ inr (inr seen)
    ];
    apart = v.apart;
  }

  imports-Reached :
      (cur : Package)
      → lookup cur.import_path graph ≡ some cur
      → Reached cur.import_path
      → (imp : Text) → Memᴰ imp cur.imports
      → Reached imp
  imports-Reached cur l reached imp m =
      let among : Memᴰ imp (imports_in graph cur.import_path) =
        subst (λ o. Memᴰ imp (imports_or_none o)) (sym l) m in
      inr (
        ⊎_elim (λ e. Leads.edge (subst (λ k. Memᴰ imp (imports_in graph k)) (sym e) among))
          (λ walk. Leads.via walk among) reached)

  -- What the loop returns.
  pub record IsFound (start : List Text) (pkgs : List Package) : Type 0 where
    pub found :
        (pkg : Package)
        → Memᴰ pkg pkgs
        → (lookup pkg.import_path graph ≡ some pkg) × Reached pkg.import_path
    pub closed :
        (pkg : Package) (imp : Text) (dep : Package)
        → Memᴰ pkg pkgs
        → Memᴰ imp pkg.imports
        → lookup imp graph ≡ some dep
        → Memᴰ dep pkgs
    pub apart : Apart pkgs
    pub keeps : (k : Text) → Memᴰ k start → (pkg : Package) × Memᴰ pkg pkgs × (pkg.import_path ≡ k)

  end-IsFound : (w : Walk) → w.queue ≡ [] → Inv (λ _. ⊥) w → IsFound w.seen w.closure
  end-IsFound w q v = record {
    found = v.found;
    closed = λ pkg imp dep m i l. elim (v.explored pkg m) [
      | inl waits ↦ absurd (Memᴰ.not-nil (subst (Memᴰ pkg) q waits))
      | inr (inl x) ↦ absurd x
      | inr (inr seen) ↦
          let (other, n, named) = v.seen_in imp (seen imp dep i l) in
          let same : other ≡ dep = cc ((v.found other n).0, named, l) in
          subst (λ x. Memᴰ x w.closure) same n
    ];
    apart = v.apart;
    keeps = v.seen_in;
  }

  search_queue-IsFound :
      (fuel : ℕ) (w : Walk)
      → Inv (λ _. ⊥) w
      → length w.queue + unseen (keys graph) w.seen < fuel
      → IsFound w.seen (search_queue graph fuel w)
  unfolding search_queue
  search_queue-IsFound zero w v enough = absurd (omega arith)
  search_queue-IsFound (suc fuel) w v enough = elim (List-cases w.queue) [
    | inl q ↦ rw (q, search_queue) (end-IsFound w q v)
    | inr (cur, rest, q) ↦
        let popped : Walk = record w { queue = rest } in
        let (l, reached) = v.found cur (v.queued cur (subst (Memᴰ cur) (sym q) (Memᴰ.head refl))) in
        let (v', g, done) =
          visit_imports_lem (λ p. p ≡ cur) cur.imports popped (pop-Inv w cur rest q v)
            (imports-Reached cur l reached) in
        let next = visit_imports graph cur.imports popped in
        let ih =
          search_queue-IsFound fuel next (settle-Inv next cur v' (λ imp dep m n. done imp dep m n))
            (omega (arith, g.weight, ap (length {A = Package}) q)) in
        rw (q, search_queue)
          (record {
            found = ih.found;
            closed = ih.closed;
            apart = ih.apart;
            keeps = λ k m. ih.keeps k (g.seen k m);
          })
  ]

  first-Inv : lookup main_pkg.import_path graph ≡ some main_pkg → Inv (λ _. ⊥) (first_walk main_pkg)
  first-Inv l = record {
    found = λ pkg m.
        subst (λ x. (lookup x.import_path graph ≡ some x) × Reached x.import_path) (sym (only m))
          (l, inl refl);
    in_seen = λ pkg m. Memᴰ.head (ap (λ x. x.import_path) (only m));
    seen_in = λ k m. (main_pkg, Memᴰ.head refl, sym (only m));
    queued = λ pkg m. m;
    explored = λ pkg m. inl m;
    apart = (tt, tt);
  }
    where
      only : {A : Type 0} {x y : A} → Memᴰ x (y ∷ []) → x ≡ y
      only m = elim (Memᴰ.cases_cons m) [ inl e ↦ e | inr t ↦ absurd (Memᴰ.not-nil t) ]

  pub search-IsFound :
      lookup main_pkg.import_path graph ≡ some main_pkg
      → IsFound
          (main_pkg.import_path ∷ [])
          (search_queue graph (suc (suc (length (keys graph)))) (first_walk main_pkg))
  search-IsFound l =
      search_queue-IsFound (suc (suc (length (keys graph)))) (first_walk main_pkg) (first-Inv l)
        (omega (arith, unseen_bound (keys graph) (main_pkg.import_path ∷ [])))
