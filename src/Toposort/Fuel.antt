-- ===== src/Toposort/Fuel.antt =====
-- How deep `visit` recurs: the keys that are being visited differ, so no deeper than there are keys.
use go2nix.Base.{
  ℕ, zero, suc, ◌+◌, ◌≤◌, ◌<◌, List, [], ◌∷◌, ◌≡◌, ◌≢◌, refl, ◌⊎◌, inl, inr, ⊎_elim, Text,
  text_eq_iff, sort-Memᴰ, Dict, keys, Result, ok, err, arith, Memᴰ, length,
}
use mathlib.Core.List.Memᴰ
use go2nix.Toposort.{
  Mark, unvisited, visiting, visited, State, SortError, import_cycle, out_of_fuel, begin, visit_all,
  visit, start, toposort,
}
use go2nix.Toposort.Busy.{visit-Kept}
use go2nix.Toposort.Walk.{Leads, Reaches}
use go2nix.Toposort.Cycle.{bind_err, visit-eq-err, visit_all-eq-err, toposort_cycle}

abbrev weight : Mark → ℕ
weight unvisited = 1
weight visiting = 0
weight visited = 0

-- How many of the keys are unvisited.
abbrev fresh_count : List Text → (Text → Mark) → ℕ
fresh_count [] mark = 0
fresh_count (k ∷ ks) mark = weight (mark k) + fresh_count ks mark

weight-le : (m n : Mark) → (m ≡ unvisited → n ≡ unvisited) → weight m ≤ weight n
weight-le unvisited n h = ground (arith, h)
weight-le visiting n h = omega arith
weight-le visited n h = omega arith

fresh_count-le :
    (ks : List Text) (m n : Text → Mark)
    → ((k : Text) → m k ≡ unvisited → n k ≡ unvisited)
    → fresh_count ks m ≤ fresh_count ks n
fresh_count-le [] m n h = omega arith
fresh_count-le (k ∷ ks) m n h = omega (arith, weight-le (m k) (n k) (h k), fresh_count-le ks m n h)

fresh_count_bound : (ks : List Text) (m : Text → Mark) → fresh_count ks m ≤ length ks
fresh_count_bound [] m = omega arith
fresh_count_bound (k ∷ ks) m = ground (arith, fresh_count_bound ks m)

module _ {T : Type 0} (nodes : Dict T) (deps : Text → List Text) (all_keys : List Text)
    (closed : (k d : Text) → Memᴰ k all_keys → Memᴰ d (deps k) → Memᴰ d all_keys) where
  abbrev fresh : State T → ℕ
  fresh s = fresh_count all_keys s.mark

  begin-fresh :
      (s : State T) (key k : Text)
      → (begin nodes deps key s).mark k ≡ unvisited
      → s.mark k ≡ unvisited
  unfolding begin
  begin-fresh s key k h = ground (arith, text_eq_iff key k)

  begin-weight :
      (s : State T) (key k : Text)
      → key ≡ k
      → s.mark key ≡ unvisited
      → suc (weight ((begin nodes deps key s).mark k)) ≡ weight (s.mark k)
  unfolding begin
  begin-weight s key k same e = ground (arith, text_eq_iff key k)

  fresh_count-begin :
      (ks : List Text) (key : Text) (s : State T)
      → Memᴰ key ks
      → s.mark key ≡ unvisited
      → fresh_count ks (begin nodes deps key s).mark < fresh_count ks s.mark
  fresh_count-begin [] key s m e = absurd (Memᴰ.not-nil m)
  fresh_count-begin (k ∷ ks) key s m e = elim (Memᴰ.cases_cons m) [
    | inl same ↦ omega (
      arith,
      begin-weight s key k same e,
      fresh_count-le ks (begin nodes deps key s).mark s.mark (begin-fresh s key),
    )
    | inr m' ↦ omega (
      arith,
      weight-le ((begin nodes deps key s).mark k) (s.mark k) (begin-fresh s key k),
      fresh_count-begin ks key s m' e,
    )
  ]

  loop_fuel :
      (fuel : ℕ)
      → ((key : Text) (s : State T)
          → Memᴰ key all_keys
          → fresh s < fuel
          → visit nodes deps fuel key s ≢ err out_of_fuel)
      → (ks : List Text) (s : State T) → ((k : Text) → Memᴰ k ks → Memᴰ k all_keys)
      → fresh s < fuel
      → visit_all nodes deps (visit nodes deps fuel) ks s ≢ err out_of_fuel
  loop_fuel fuel one [] s sub h e = unfold visit_all in cc
  loop_fuel fuel one (key ∷ rest) s sub h e =
      elim (visit_all-eq-err nodes deps fuel key rest s _ e) [
        | inl p ↦ one key s (sub key (Memᴰ.head refl)) h p
        | inr (t, p, q) ↦
            let kept = visit-Kept nodes deps fuel key s t p in
            loop_fuel fuel one rest t (λ k m. sub k (Memᴰ.tail m))
              (omega (arith, fresh_count-le all_keys t.mark s.mark kept.fresh)) q
      ]

  visit_fuel :
      (fuel : ℕ) (key : Text) (s : State T)
      → Memᴰ key all_keys
      → fresh s < fuel
      → visit nodes deps fuel key s ≢ err out_of_fuel
  visit_fuel zero key s m h e = absurd (omega arith)
  visit_fuel (suc fuel) key s m h e = elim (visit-eq-err nodes deps fuel key s _ e) [
    | inl (b, e') ↦ cc
    | inr (f, p) ↦
        loop_fuel fuel (visit_fuel fuel) (deps key) (begin nodes deps key s)
          (λ d n. closed key d m n) (omega (arith, fresh_count-begin all_keys key s m f)) p
  ]

  pub toposort_terminates :
      (fuel : ℕ)
      → ((k : Text) → Memᴰ k (keys nodes) → Memᴰ k all_keys)
      → length all_keys < fuel
      → toposort nodes deps fuel ≢ err out_of_fuel
  unfolding toposort
  toposort_terminates fuel sub h e =
      loop_fuel fuel (visit_fuel fuel) _ (start nodes deps) (λ k m. sub k ((sort-Memᴰ k _).0 m))
        (omega (arith, fresh_count_bound all_keys (λ _. unvisited))) (bind_err _ _ e)

Result-cases :
    {A : Type 0} (r : Result SortError A)
    → r ≢ err out_of_fuel
    → ((a : A) × (r ≡ ok a)) ⊎ ((c : Text) × (r ≡ err (import_cycle c)))
Result-cases (ok a) h = inl (a, refl)
Result-cases (err (import_cycle c)) h = inr (c, refl)
Result-cases (err out_of_fuel) h = absurd (h refl)

-- Where the keys of the map and all that they depend on stand in a list, and the fuel is more than
-- the entries of the list, the sort ends: with a result, or with the cycle error for a key that
-- depends on itself. So it has a result whenever no key that the keys of the map depend on,
-- however indirectly, depends on itself.
pub toposort_total :
    {T : Type 0} (nodes : Dict T) (deps : Text → List Text) (all_keys : List Text) (fuel : ℕ)
    → ((k d : Text) → Memᴰ k all_keys → Memᴰ d (deps k) → Memᴰ d all_keys)
    → ((k : Text) → Memᴰ k (keys nodes) → Memᴰ k all_keys)
    → length all_keys < fuel
    → (((result : List T) × (toposort nodes deps fuel ≡ ok result))
        ⊎ ((c : Text) × (toposort nodes deps fuel ≡ err (import_cycle c)) × Leads deps c c))
      × (((k c : Text) → Memᴰ k (keys nodes) → Reaches deps k c → ¬ Leads deps c c)
          → (result : List T) × (toposort nodes deps fuel ≡ ok result))
toposort_total {T} nodes deps all_keys fuel closed sub h = (
  ⊎_elim inl (λ (c, e). inr (c, e, (toposort_cycle nodes deps fuel c e).0)) ends,
  λ acyclic. elim ends [
    | inl done ↦ done
    | inr (c, e) ↦
        let (w, (k, m, r)) = toposort_cycle nodes deps fuel c e in absurd (acyclic k c m r w)
  ],
)
  where
    ends :
        ((result : List T) × (toposort nodes deps fuel ≡ ok result))
        ⊎ ((c : Text) × (toposort nodes deps fuel ≡ err (import_cycle c)))
    ends =
        Result-cases (toposort nodes deps fuel)
          (toposort_terminates nodes deps all_keys closed fuel sub h)
