-- ===== src/Toposort/Order.antt =====
-- What a successful sort returns: every key once, behind its dependencies.
use go2nix.Base.{
  ℕ, List, [], ◌∷◌, ◌++◌, ◌≡◌, refl, sym, ap, subst, inl, inr, ◌↔◌, Text, text_eq_iff, sort-Memᴰ,
  Dict, lookup, keys, ok, ok_of_bind, arith, Memᴰ, Memᴰ-cons,
}
use mathlib.Core.List.Memᴰ
use go2nix.Toposort.{
  unvisited, visiting, visited, State, option_list, begin, finish, visit_all, visit, start,
  toposort,
}
use go2nix.Toposort.Invariant.{Rule, visit_all_rule}
use go2nix.Toposort.Busy.{Kept, Kept-finish, Kept-rule}

-- A list of keys, the last finished first, in which each key stands once and all of its
-- dependencies stand behind it (so they were finished before it).
abbrev pub IsClosed : (Text → List Text) → List Text → Type 0
IsClosed deps [] = Unit
IsClosed deps (k ∷ done) =
    ((d : Text) → Memᴰ d (deps k) → Memᴰ d done) × ¬ Memᴰ k done × IsClosed deps done

-- The nodes of such keys, the first finished first.
abbrev pub collect : {T : Type 0} → Dict T → List Text → List T
collect nodes [] = []
collect nodes (k ∷ done) = collect nodes done ++ option_list (lookup k nodes)

module _ {T : Type 0} (nodes : Dict T) (deps : Text → List Text) where
  record Inv (done : List Text) (s : State T) : Type 0 where
    marks : (k : Text) → (s.mark k ≡ visited) ↔ Memᴰ k done
    closed : IsClosed deps done
    result : s.result ≡ collect nodes done

  record Grown (done : List Text) (t : State T) (ks : List Text) : Type 0 where
    after : List Text
    inv : Inv after t
    keeps : (k : Text) → Memᴰ k done → Memᴰ k after
    adds : (k : Text) → Memᴰ k ks → Memᴰ k after

  record Grows (s t : State T) (ks : List Text) : Type 0 where
    kept : Kept nodes deps s t ks
    grown : (done : List Text) → Inv done s → Grown done t ks

  begin-Inv :
      (done : List Text) (s : State T) (key : Text)
      → s.mark key ≡ unvisited
      → Inv done s
      → Inv done (begin nodes deps key s)
  unfolding begin
  begin-Inv done s key e inv = record {
    marks = λ k. ground (arith, inv.marks k, text_eq_iff key k);
    closed = inv.closed;
    result = inv.result;
  }

  finish-Inv :
      (done : List Text) (u : State T) (key : Text)
      → u.mark key ≡ visiting
      → ((d : Text) → Memᴰ d (deps key) → Memᴰ d done)
      → Inv done u
      → Inv (key ∷ done) (finish nodes deps key u)
  unfolding finish
  finish-Inv done u key busy has inv = record {
    marks = λ k. ground (arith, inv.marks k, text_eq_iff key k, Memᴰ-cons k key done);
    closed = (has, λ m. cc ((inv.marks key).1 m), inv.closed);
    result = ap (λ r. r ++ option_list (lookup key nodes)) inv.result;
  }

  begin_busy : (s : State T) (key : Text) → (begin nodes deps key s).mark key ≡ visiting
  unfolding begin
  begin_busy s key = ground (arith, text_eq_iff key key)

  fresh-Grows :
      (s u : State T) (key : Text)
      → s.mark key ≡ unvisited
      → Grows (begin nodes deps key s) u (deps key)
      → Grows s (finish nodes deps key u) (key ∷ [])
  fresh-Grows s u key e h = record {
    kept = Kept-finish nodes deps s u key e h.kept;
    grown = λ done inv.
        let g = h.grown done (begin-Inv done s key e inv) in
        record {
          after = key ∷ g.after;
          inv = finish-Inv g.after u key ((h.kept.busy key).1 (begin_busy s key)) g.adds g.inv;
          keeps = λ k m. Memᴰ.tail (g.keeps k m);
          adds = λ k m. Memᴰ.head (Memᴰ.eq_of_singleton m);
        };
  }

  chain-Grows :
      (s t u : State T) (key : Text) (rest : List Text)
      → Grows s t (key ∷ [])
      → Grows t u rest
      → Grows s u (key ∷ rest)
  chain-Grows s t u key rest a b = record {
    kept = (Kept-rule nodes deps).chain s t u key rest a.kept b.kept;
    grown = λ done inv.
        let g = a.grown done inv in
        let h = b.grown g.after g.inv in
        record {
          after = h.after;
          inv = h.inv;
          keeps = λ k m. h.keeps k (g.keeps k m);
          adds = λ k m. elim (Memᴰ.cases_cons m) [
            | inl e ↦ h.keeps k (g.adds k (Memᴰ.head e))
            | inr m' ↦ h.adds k m'
          ];
        };
  }

  Grows-rule : Rule nodes deps Grows
  Grows-rule = record {
    nil = λ s. record {
      kept = (Kept-rule nodes deps).nil s;
      grown = λ done inv. record {
        after = done;
        inv = inv;
        keeps = λ k m. m;
        adds = λ k m. absurd (Memᴰ.not-nil m);
      };
    };
    chain = chain-Grows;
    known = λ s key e. record {
      kept = (Kept-rule nodes deps).known s key e;
      grown = λ done inv. record {
        after = done;
        inv = inv;
        keeps = λ k m. m;
        adds = λ k m.
            (inv.marks k).0 (subst (λ j. s.mark j ≡ visited) (sym (Memᴰ.eq_of_singleton m)) e);
      };
    };
    fresh = fresh-Grows;
  }

  start-Inv : Inv [] (start nodes deps)
  start-Inv = record {
    marks = λ k. (λ e. cc, λ m. absurd (Memᴰ.not-nil m));
    closed = tt;
    result = refl;
  }

-- When the sort succeeds, its result is the nodes of the keys in the order in which they were
-- finished: the finished keys hold every key of the map, each once, and every dependency of a
-- finished key was finished before it. Keys that are no nodes add nothing to the result.
pub toposort_ordered :
    {T : Type 0} (nodes : Dict T) (deps : Text → List Text) (fuel : ℕ) (result : List T)
    → toposort nodes deps fuel ≡ ok result
    → (done : List Text) × (result ≡ collect nodes done)
      × IsClosed deps done
      × ((k : Text) → Memᴰ k (keys nodes) → Memᴰ k done)
unfolding toposort
toposort_ordered nodes deps fuel result h =
    let record { value = t; came = p; went = q } =
      ok_of_bind _ (visit_all nodes deps (visit nodes deps fuel) _ _) h in
    let g =
      (visit_all_rule nodes deps (Grows-rule nodes deps) fuel _ _ t p).grown []
        (start-Inv nodes deps) in
    (g.after, cc (g.inv.result), g.inv.closed, λ k m. g.adds k ((sort-Memᴰ k _).1 m))
