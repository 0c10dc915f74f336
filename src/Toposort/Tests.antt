-- ===== src/Toposort/Tests.antt =====
-- Runs of the sort on small graphs, and the theorems at these.
use go2nix.Base.{
  ℕ, List, [], ◌∷◌, ◌≡◌, refl, subst, ◌⊎◌, inl, inr, Text, text_eq, Dict, keys, ok, err, arith,
  Memᴰ, if◌then◌else◌,
}
use mathlib.Core.List.Memᴰ
use go2nix.Toposort.{import_cycle, toposort}
use go2nix.Toposort.Order.{IsClosed, collect, toposort_ordered}
use go2nix.Toposort.Walk.{Leads, Reaches}
use go2nix.Toposort.Cycle.{toposort_acyclic, toposort_cycle}
use go2nix.Toposort.Fuel.{toposort_total}

abbrev app : Text
app = b'a' ∷ []

abbrev lib : Text
lib = b'l' ∷ []

abbrev fmt : Text
fmt = b'f' ∷ []

-- `app` imports `lib` and `fmt`, and `lib` imports `fmt`, which is no node.
abbrev nodes : Dict ℕ
nodes = (app, 1) ∷ (lib, 2) ∷ []

abbrev imports : Text → List Text
imports k = if text_eq k app then lib ∷ fmt ∷ [] else if text_eq k lib then fmt ∷ [] else []

-- `lib` imports `app` as well.
abbrev cyclic : Text → List Text
cyclic k = if text_eq k app then lib ∷ [] else if text_eq k lib then app ∷ [] else []

toposort-nodes : toposort nodes imports 4 ≡ ok (2 ∷ 1 ∷ [])
unfolding toposort
toposort-nodes = refl

toposort-cyclic : toposort nodes cyclic 4 ≡ err (import_cycle app)
unfolding toposort
toposort-cyclic = refl

toposort_ordered_example :
    (done : List Text) × (2 ∷ 1 ∷ [] ≡ collect nodes done)
    × IsClosed imports done
    × ((k : Text) → Memᴰ k (keys nodes) → Memᴰ k done)
toposort_ordered_example = toposort_ordered nodes imports 4 (2 ∷ 1 ∷ []) toposort-nodes

toposort_acyclic_example : ¬ Leads imports app app
toposort_acyclic_example =
    toposort_acyclic nodes imports 4 (2 ∷ 1 ∷ []) app app toposort-nodes (Memᴰ.head refl) (inl refl)

toposort_cycle_example :
    Leads cyclic app app × ((k : Text) × Memᴰ k (keys nodes) × Reaches cyclic k app)
toposort_cycle_example = toposort_cycle nodes cyclic 4 app toposort-cyclic

imports_closed :
    (k d : Text)
    → Memᴰ k (app ∷ lib ∷ fmt ∷ [])
    → Memᴰ d (imports k)
    → Memᴰ d (app ∷ lib ∷ fmt ∷ [])
imports_closed k d m n = elim (Memᴰ.cases_cons m) [
  | inl e ↦ Memᴰ.tail (at e)
  | inr m' ↦ elim (Memᴰ.cases_cons m') [
    | inl e ↦ Memᴰ.tail (Memᴰ.tail (at e))
    | inr m'' ↦ absurd (Memᴰ.not-nil (at (Memᴰ.eq_of_singleton m'')))
  ]
]
  where
    at : {j : Text} → k ≡ j → Memᴰ d (imports j)
    at e = subst (λ x. Memᴰ d (imports x)) e n

toposort_total_example :
    (((result : List ℕ) × (toposort nodes imports 4 ≡ ok result))
      ⊎ ((c : Text) × (toposort nodes imports 4 ≡ err (import_cycle c)) × Leads imports c c))
    × (((k c : Text) → Memᴰ k (keys nodes) → Reaches imports k c → ¬ Leads imports c c)
        → (result : List ℕ) × (toposort nodes imports 4 ≡ ok result))
toposort_total_example =
    toposort_total nodes imports (app ∷ lib ∷ fmt ∷ []) 4 imports_closed
      (λ k m. Memᴰ.append_left (fmt ∷ []) m) (omega arith)
