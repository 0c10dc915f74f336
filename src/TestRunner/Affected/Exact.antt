-- ===== src/TestRunner/Affected/Exact.antt =====
-- What is compiled again for an external test, and in which order.
use go2nix.Base.{
  suc, List, [], ◌∷◌, ◌++◌, ◌≡◌, ◌≢◌, refl, sym, ap, subst, ◌∙◌, inl, inr, ◌⊎◌, ⊎_elim, ◌↔◌, Bool,
  true, Bool-cases, some, Text, text_eq, text_eq_iff, any, any-text_eq, length, Memᴰ-flat_map, Dict,
  lookup, keys, ok, err, Memᴰ, arith,
}
use mathlib.Core.List.Memᴰ
use go2nix.Base.Seen.{Memᴰ-any}
use go2nix.Toposort.{import_cycle, toposort}
use go2nix.Toposort.Order.{collect, toposort_ordered}
use go2nix.Toposort.Walk.{Leads, Reaches}
use go2nix.Toposort.Fuel.{toposort_total}
use go2nix.Graph.Order.{collect-Memᴰ, Memᴰ-collect, Follows, closed-Follows}
use go2nix.Search.Exact.{walk_each_exact}
use go2nix.LocalPackages.{LocalPkg}
use go2nix.TestRunner.Affected.{
  filter_texts, identity, local_deps_of, local_keys, walk_forward, affected_keys, affected_deps,
  sort_affected, affected_local_deps,
}
use go2nix.TestRunner.Affected.Found.{affected_keys_exact}
use go2nix.TestRunner.Affected.Reverse.{local_deps_of-keys}

filter_texts-Memᴰ :
    (keep : Text → Bool) (k : Text) (ks : List Text)
    → Memᴰ k (filter_texts keep ks) ↔ (Memᴰ k ks × (keep k ≡ true))
filter_texts-Memᴰ keep k [] = (λ m. absurd (Memᴰ.not-nil m), λ (m, _). absurd (Memᴰ.not-nil m))
filter_texts-Memᴰ keep k (j ∷ ks) =
    let ih = filter_texts-Memᴰ keep k ks in
    elim (Bool-cases (keep j)) [
      | inl e ↦ rw e (
        λ m. elim (Memᴰ.cases_cons m) [
          | inl q ↦ (Memᴰ.head q, ap keep q ∙ e)
          | inr t ↦ let (n, h) = ih.0 t in (Memᴰ.tail n, h)
        ],
        λ (m, h). elim (Memᴰ.cases_cons m) [
          | inl q ↦ Memᴰ.head q
          | inr t ↦ Memᴰ.tail (ih.1 (t, h))
        ],
      )
      | inr e ↦ rw e (
        λ m. let (n, h) = ih.0 m in (Memᴰ.tail n, h),
        λ (m, h). elim (Memᴰ.cases_cons m) [ inl q ↦ cc (h, e, ap keep q) | inr t ↦ ih.1 (t, h) ],
      )
    ]

identity-keys : (ks : List Text) → keys (identity ks) ≡ ks
identity-keys [] = refl
identity-keys (k ∷ ks) = ap (λ l. k ∷ l) (identity-keys ks)

lookup-identity : (k : Text) (ks : List Text) → Memᴰ k ks → lookup k (identity ks) ≡ some k
lookup-identity k [] m = absurd (Memᴰ.not-nil m)
lookup-identity k (j ∷ ks) m = elim (Bool-cases (text_eq j k)) [
  | inl e ↦ rw e (ap some ((text_eq_iff j k).0 e))
  | inr e ↦ rw e (
      lookup-identity k ks
        (elim (Memᴰ.cases_cons m) [ inl q ↦ cc (e, (text_eq_iff j k).1 (sym q)) | inr t ↦ t ]))
]

lookup-identity-Memᴰ :
    (k x : Text) (ks : List Text) → lookup k (identity ks) ≡ some x → (x ≡ k) × Memᴰ k ks
lookup-identity-Memᴰ k x [] h = cc
lookup-identity-Memᴰ k x (j ∷ ks) h = elim (Bool-cases (text_eq j k)) [
  | inl e ↦ let q : j ≡ k = (text_eq_iff j k).0 e in (cc (q, rw e at h), Memᴰ.head (sym q))
  | inr e ↦ let (q, m) = lookup-identity-Memᴰ k x ks (rw e at h) in (q, Memᴰ.tail m)
]

collect_identity-Memᴰ :
    (ks done : List Text) (x : Text) → Memᴰ x (collect (identity ks) done) → Memᴰ x ks
collect_identity-Memᴰ ks done x m =
    let (k, h) = Memᴰ-collect (identity ks) done x m in
    let (same, there) = lookup-identity-Memᴰ k x ks h in subst (λ z. Memᴰ z ks) (sym same) there

Leads-subset :
    {f g : Text → List Text}
    → ((k d : Text) → Memᴰ d (f k) → Memᴰ d (g k))
    → {a b : Text} → Leads f a b
    → Leads g a b
Leads-subset h {a} {b} (Leads.edge m) = Leads.edge (h a b m)
Leads-subset h {a} {b} (Leads.via {b = j} w m) = Leads.via (Leads-subset h w) (h j b m)

module _ (pkg_map : Dict LocalPkg) where
  -- The local packages that the imports reach.
  abbrev pub Reachable : List Text → Text → Type 0
  Reachable imports k = (r : Text) × Memᴰ r imports × Reaches (local_deps_of pkg_map) r k

  -- A key stands in a list behind those of its dependencies that stand in it.
  abbrev pub Behind : List Text → Text → Type 0
  Behind result k =
      (before : List Text) × (after : List Text) × (result ≡ before ++ k ∷ after)
      × ((d : Text) → Memᴰ d (local_deps_of pkg_map k) → Memᴰ d result → Memᴰ d before)

  walk_forward_exact :
      (imports : List Text) (k : Text) → Memᴰ k (walk_forward pkg_map imports) ↔ Reachable imports k
  unfolding walk_forward
  walk_forward_exact imports k =
      (walk_each_exact (λ reached. reached) (λ k reached. reached ++ k ∷ []) (local_deps_of pkg_map)
          (λ _ _. refl) (local_keys pkg_map imports)
          (λ p d _ n. Memᴰ.append_right imports (
            Memᴰ-flat_map (local_deps_of pkg_map) (keys pkg_map) (local_deps_of-keys pkg_map p d n)
              n))
          (suc (length (local_keys pkg_map imports))) imports [] (λ p m. Memᴰ.append_left _ m)
          (omega arith) refl).0
        k

  reachable_closed :
      (imports : List Text) (p d : Text)
      → Memᴰ p (walk_forward pkg_map imports)
      → Memᴰ d (local_deps_of pkg_map p)
      → Memᴰ d (walk_forward pkg_map imports)
  reachable_closed imports p d m n =
      let (r, i, reached) = (walk_forward_exact imports p).0 m in
      (walk_forward_exact imports d).1 (
        r,
        i,
        inr (elim reached [
          | inl e ↦ Leads.edge (subst (λ x. Memᴰ d (local_deps_of pkg_map x)) (sym e) n)
          | inr w ↦ Leads.via w n
        ]),
      )

  module _ (target : Text) (affected : List Text) where
    affected_deps-Memᴰ :
        (k d : Text)
        → Memᴰ d (affected_deps pkg_map target affected k)
        → Memᴰ d (local_deps_of pkg_map k) × ((d ≡ target) ⊎ Memᴰ d affected)
    affected_deps-Memᴰ k d m =
        let (n, h) = (filter_texts-Memᴰ _ d (local_deps_of pkg_map k)).0 m in
        (
          n,
          elim (Bool-cases (any (text_eq d) affected)) [
            | inl e ↦ inr (any-text_eq d affected e)
            | inr e ↦ inl ((text_eq_iff d target).0 (rw e at h))
          ],
        )

    Memᴰ-affected_deps :
        (k d : Text)
        → Memᴰ d (local_deps_of pkg_map k)
        → Memᴰ d affected
        → Memᴰ d (affected_deps pkg_map target affected k)
    Memᴰ-affected_deps k d n m =
        (filter_texts-Memᴰ _ d (local_deps_of pkg_map k)).1 (n, rw (Memᴰ-any d affected m) refl)

    -- What a sort of the affected packages answers.
    abbrev Sorted : List Text → Type 0
    Sorted result =
        ((k : Text) → Memᴰ k result ↔ Memᴰ k affected)
        × ((k : Text) → Memᴰ k result → Behind result k)

    Sorted-right :
        (result : List Text)
        → toposort
            (identity affected)
            (affected_deps pkg_map target affected)
            (suc (suc (length affected)))
          ≡ ok result
        → Sorted result
    Sorted-right result h =
        let nodes = identity affected in
        let (done, q, closed, has) =
          toposort_ordered nodes (affected_deps pkg_map target affected) _ result h in
        let has_all : (k : Text) → Memᴰ k affected → Memᴰ k done =
          λ k m. has k (subst (Memᴰ k) (sym (identity-keys affected)) m) in
        let there : (k : Text) → Memᴰ k result → Memᴰ k affected =
          λ k m. collect_identity-Memᴰ affected done k (subst (Memᴰ k) q m) in
        (
          λ k. (
            there k,
            λ m.
                subst (Memᴰ k) (sym q)
                  (collect-Memᴰ nodes done k k (has_all k m) (lookup-identity k affected m)),
          ),
          λ k m.
              let (before, after, e, deps_before) =
                subst (Follows nodes (affected_deps pkg_map target affected) k k) (sym q) (
                  closed-Follows nodes (affected_deps pkg_map target affected) done k k closed
                    (has_all k (there k m)) (lookup-identity k affected (there k m))) in
              (
                before,
                after,
                e,
                λ d n i.
                    deps_before d d (Memᴰ-affected_deps k d n (there d i))
                      (lookup-identity d affected (there d i)),
              ),
        )

    abbrev Cycle : Text → Type 0
    Cycle c = Leads (local_deps_of pkg_map) c c

    toposort_affected :
        ((result : List Text) × (toposort
              (identity affected)
              (affected_deps pkg_map target affected)
              (suc (suc (length affected)))
            ≡ ok result)
          × Sorted result)
        ⊎ ((c : Text) × (toposort
                (identity affected)
                (affected_deps pkg_map target affected)
                (suc (suc (length affected)))
              ≡ err (import_cycle c))
            × Cycle c)
    toposort_affected =
        let (ends, _) =
          toposort_total (identity affected) (affected_deps pkg_map target affected)
            (target ∷ affected) (suc (suc (length affected)))
            (λ k d _ m. ⊎_elim (λ e. Memᴰ.head e) (λ t. Memᴰ.tail t) (affected_deps-Memᴰ k d m).1)
            (λ k m. Memᴰ.tail (subst (Memᴰ k) (identity-keys affected) m)) (omega arith) in
        ⊎_elim (λ (result, h). inl (result, h, Sorted-right result h))
          (λ (c, h, w). inr (c, h, Leads-subset (λ k d m. (affected_deps-Memᴰ k d m).0) w)) ends

  sort_affected_lem :
      (target : Text) (affected : List Text)
      → ((result : List Text) × (sort_affected pkg_map target affected ≡ ok result)
          × Sorted target affected result)
        ⊎ ((c : Text) × (sort_affected pkg_map target affected ≡ err (import_cycle c))
            × Leads (local_deps_of pkg_map) c c)
  unfolding toposort
  sort_affected_lem target [] =
      inl ([], refl, (λ k. (λ m. m, λ m. m), λ k m. absurd (Memᴰ.not-nil m)))
  sort_affected_lem target (k ∷ ks) = toposort_affected target (k ∷ ks)

  -- What is compiled again for an external test is the packages, other than the one under test, that
  -- its imports reach and that depend on the one under test, each behind those of its dependencies
  -- that are compiled again too; otherwise the error names a package that depends on itself.
  pub affected_local_deps_exact :
      (target : Text) (imports : List Text)
      → ((result : List Text) × (affected_local_deps pkg_map target imports ≡ ok result)
          × ((k : Text)
              → Memᴰ k result
                ↔ ((k ≢ target) × Reachable imports k × Leads (local_deps_of pkg_map) k target))
          × ((k : Text) → Memᴰ k result → Behind result k))
        ⊎ ((c : Text) × (affected_local_deps pkg_map target imports ≡ err (import_cycle c))
            × Leads (local_deps_of pkg_map) c c)
  unfolding affected_local_deps
  affected_local_deps_exact target imports =
      let affected = affected_keys pkg_map target (walk_forward pkg_map imports) in
      let exact =
        affected_keys_exact pkg_map target (walk_forward pkg_map imports)
          (reachable_closed imports) in
      elim (sort_affected_lem target affected) [
        | inr cycle ↦ inr cycle
        | inl (result, h, (same, behind)) ↦ inl (
          result,
          h,
          λ k. (
            λ m.
                let (n, i, lead) = (exact k).0 ((same k).0 m) in
                (n, (walk_forward_exact imports k).0 i, lead),
            λ (n, i, lead). (same k).1 ((exact k).1 (n, (walk_forward_exact imports k).1 i, lead)),
          ),
          behind,
        )
      ]
