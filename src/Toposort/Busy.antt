-- ===== src/Toposort/Busy.antt =====
-- A successful call of `visit` leaves the keys that are being visited as they were, and no key
-- that was visited, or being visited, becomes unvisited.
use go2nix.Base.{ℕ, List, [], ◌∷◌, ◌≡◌, ◌⊎◌, ◌↔◌, Text, text_eq_iff, Dict, ok, arith}
use go2nix.Toposort.{unvisited, visiting, State, begin, finish, visit}
use go2nix.Toposort.Invariant.{Rule, visit_rule}

module _ {T : Type 0} (nodes : Dict T) (deps : Text → List Text) where
  pub record Kept (s t : State T) (ks : List Text) : Type 0 where
    pub busy : (k : Text) → (t.mark k ≡ visiting) ↔ (s.mark k ≡ visiting)
    pub fresh : (k : Text) → t.mark k ≡ unvisited → s.mark k ≡ unvisited

  pub Kept-finish :
      (s u : State T) (key : Text)
      → s.mark key ≡ unvisited
      → Kept (begin nodes deps key s) u (deps key)
      → Kept s (finish nodes deps key u) (key ∷ [])
  unfolding begin finish
  Kept-finish s u key e kept = record {
    busy = λ k. ground (arith, kept.busy k, text_eq_iff key k);
    fresh = λ k. ground (arith, kept.fresh k, text_eq_iff key k);
  }

  pub Kept-rule : Rule nodes deps Kept
  Kept-rule = record {
    nil = λ s. record { busy = λ k. (λ e. e, λ e. e); fresh = λ k e. e };
    chain = λ s t u key rest a b. record {
      busy = λ k. (λ e. (a.busy k).0 ((b.busy k).0 e), λ e. (b.busy k).1 ((a.busy k).1 e));
      fresh = λ k e. a.fresh k (b.fresh k e);
    };
    known = λ s key e. record { busy = λ k. (λ e'. e', λ e'. e'); fresh = λ k e'. e' };
    fresh = Kept-finish;
  }

  pub visit-Kept :
      (fuel : ℕ) (key : Text) (s t : State T)
      → visit nodes deps fuel key s ≡ ok t
      → Kept s t (key ∷ [])
  visit-Kept = visit_rule nodes deps Kept-rule

  pub begin-visiting :
      (s : State T) (key v : Text)
      → (begin nodes deps key s).mark v ≡ visiting
      → (key ≡ v) ⊎ (s.mark v ≡ visiting)
  unfolding begin
  begin-visiting s key v h = ground (arith, text_eq_iff key v)
