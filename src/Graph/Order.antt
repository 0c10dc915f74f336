-- ===== src/Graph/Order.antt =====
-- The order in which the packages of a graph are built.
use go2nix.Base.{
  Memᴰ-append, suc, List, [], ◌∷◌, ◌++◌, ◌≡◌, refl, sym, subst, ap, ◌∙◌, append_assoc, inl, inr,
  ◌⊎◌, ⊎_elim, some, Option-cases, Text, length, Memᴰ-flat_map, Dict, lookup, keys, keys-Memᴰ, Memᴰ,
  ok, err, arith,
}
use mathlib.Core.List.Memᴰ
use go2nix.Toposort.{import_cycle, option_list, toposort}
use go2nix.Toposort.Order.{IsClosed, collect, toposort_ordered}
use go2nix.Toposort.Walk.{Leads, Reaches}
use go2nix.Toposort.Fuel.{toposort_total}
use go2nix.Graph.{ResolvedPkg, imports_or_none, imports_in, graph_keys, topo_sort}

-- A node of finished keys is the node of one of them.
pub Memᴰ-collect :
    {T : Type 0} (nodes : Dict T) (done : List Text) (n : T)
    → Memᴰ n (collect nodes done)
    → (k : Text) × (lookup k nodes ≡ some n)
Memᴰ-collect nodes [] n m = absurd (Memᴰ.not-nil m)
Memᴰ-collect nodes (k ∷ done) n m =
    elim ((Memᴰ-append n (collect nodes done) (option_list (lookup k nodes))).0 m) [
      | inl old ↦ Memᴰ-collect nodes done n old
      | inr new ↦ elim (Option-cases (lookup k nodes)) [
        | inl e ↦ absurd (Memᴰ.not-nil (subst (λ o. Memᴰ n (option_list o)) e new))
        | inr (x, e) ↦ elim (Memᴰ.cases_cons (subst (λ o. Memᴰ n (option_list o)) e new)) [
          | inl q ↦ (k, e ∙ ap (λ y. some y) (sym q))
          | inr t ↦ absurd (Memᴰ.not-nil t)
        ]
      ]
    ]

module _ {T : Type 0} (nodes : Dict T) where
  pub collect-Memᴰ :
      (done : List Text) (k : Text) (n : T)
      → Memᴰ k done
      → lookup k nodes ≡ some n
      → Memᴰ n (collect nodes done)
  collect-Memᴰ [] k n m h = absurd (Memᴰ.not-nil m)
  collect-Memᴰ (j ∷ done) k n m h = elim (Memᴰ.cases_cons m) [
    | inl e ↦
        let found : lookup j nodes ≡ some n = subst (λ x. lookup x nodes ≡ some n) e h in
        Memᴰ.append_right (collect nodes done) (rw found (Memᴰ.head refl))
    | inr t ↦ Memᴰ.append_left (option_list (lookup j nodes)) (collect-Memᴰ done k n t h)
  ]

  -- A node stands in the result behind the nodes of its dependencies.
  abbrev pub Follows : (Text → List Text) → Text → T → List T → Type 0
  Follows deps k n result =
      (before : List T) × (after : List T) × (result ≡ before ++ n ∷ after)
      × ((d : Text) (dep : T) → Memᴰ d (deps k) → lookup d nodes ≡ some dep → Memᴰ dep before)

  pub closed-Follows :
      (deps : Text → List Text) (done : List Text) (k : Text) (n : T)
      → IsClosed deps done
      → Memᴰ k done
      → lookup k nodes ≡ some n
      → Follows deps k n (collect nodes done)
  closed-Follows deps [] k n closed m h = absurd (Memᴰ.not-nil m)
  closed-Follows deps (j ∷ done) k n (first, other, closed) m h = elim (Memᴰ.cases_cons m) [
    | inl e ↦
        let found : lookup j nodes ≡ some n = subst (λ x. lookup x nodes ≡ some n) e h in
        (
          collect nodes done,
          [],
          ap (λ o. collect nodes done ++ option_list o) found,
          λ d dep i l. collect-Memᴰ done d dep (first d (subst (λ x. Memᴰ d (deps x)) e i)) l,
        )
    | inr t ↦
        let (before, after, q, deps_before) = closed-Follows deps done k n closed t h in
        (
          before,
          after ++ option_list (lookup j nodes),
          ap (λ l. l ++ option_list (lookup j nodes)) q
              ∙ append_assoc before (n ∷ after) (option_list (lookup j nodes)),
          deps_before,
        )
  ]

module _ {StorePath : Type 0} (pkgs : Dict (ResolvedPkg StorePath)) where
  imports-graph_keys : (k d : Text) → Memᴰ d (imports_in pkgs k) → Memᴰ d (graph_keys pkgs)
  imports-graph_keys k d m = elim (Option-cases (lookup k pkgs)) [
    | inl n ↦ absurd (Memᴰ.not-nil (subst (λ o. Memᴰ d (imports_or_none o)) n m))
    | inr (rp, n) ↦
        Memᴰ.append_right (keys pkgs)
          (Memᴰ-flat_map (imports_in pkgs) (keys pkgs) (keys-Memᴰ k pkgs n) m)
  ]

  sorted-Follows :
      (result : List (ResolvedPkg StorePath))
      → toposort pkgs (imports_in pkgs) (suc (length (graph_keys pkgs))) ≡ ok result
      → (k : Text) (rp : ResolvedPkg StorePath) → lookup k pkgs ≡ some rp
      → Follows pkgs (imports_in pkgs) k rp result
  sorted-Follows result h k rp found =
      let (done, q, closed, has) = toposort_ordered pkgs (imports_in pkgs) _ result h in
      subst (Follows pkgs (imports_in pkgs) k rp) (sym q) (
        closed-Follows pkgs (imports_in pkgs) done k rp closed (has k (keys-Memᴰ k pkgs found))
          found)

-- The sort of a graph gives its packages in an order in which each of them stands behind the
-- packages of the graph that it imports, or the error of an import cycle, and it does give an order
-- if no package of the graph leads to a cycle.
pub topo_sort_order :
    {StorePath : Type 0} (pkgs : Dict (ResolvedPkg StorePath))
    → (((result : List (ResolvedPkg StorePath)) × (topo_sort pkgs ≡ ok result)
          × ((k : Text) (rp : ResolvedPkg StorePath)
              → lookup k pkgs ≡ some rp
              → Follows pkgs (imports_in pkgs) k rp result))
        ⊎ ((c : Text) × (topo_sort pkgs ≡ err (import_cycle c)) × Leads (imports_in pkgs) c c))
      × (((k c : Text)
            → Memᴰ k (keys pkgs)
            → Reaches (imports_in pkgs) k c
            → ¬ Leads (imports_in pkgs) c c)
          → (result : List (ResolvedPkg StorePath)) × (topo_sort pkgs ≡ ok result))
unfolding topo_sort
topo_sort_order pkgs =
    let fuel = suc (length (graph_keys pkgs)) in
    let (ends, acyclic) =
      toposort_total pkgs (imports_in pkgs) (graph_keys pkgs) fuel
        (λ k d _ m. imports-graph_keys pkgs k d m) (λ k m. Memᴰ.append_left _ m) (omega arith) in
    (⊎_elim (λ (result, h). inl (result, h, sorted-Follows pkgs result h)) inr ends, acyclic)
