-- ===== src/Toposort/Walk.antt =====
-- Walks along dependencies, and why a closed list of keys has no cycle.
use go2nix.Base.{List, [], ◌∷◌, ◌≡◌, subst, ◌⊎◌, inl, inr, Text, Memᴰ}
use mathlib.Core.List.Memᴰ
use go2nix.Toposort.Order.{IsClosed}

-- A walk of one or more dependencies.
pub data Leads (deps : Text → List Text) (a : Text) : Text → Type 0 where
  edge : {b : Text} → Memᴰ b (deps a) → Leads deps a b
  via : {b c : Text} → Leads deps a b → Memᴰ c (deps b) → Leads deps a c

abbrev pub Reaches : (Text → List Text) → Text → Text → Type 0
Reaches deps a b = (a ≡ b) ⊎ Leads deps a b

module _ (deps : Text → List Text) where
  before : {a b c : Text} → Memᴰ b (deps a) → Leads deps b c → Leads deps a c
  before m (edge n) = via (edge m) n
  before m (via w n) = via (before m w) n

  pub Reaches-before : {a b c : Text} → Memᴰ b (deps a) → Reaches deps b c → Leads deps a c
  Reaches-before {a} m (inl e) = edge (subst (λ x. Memᴰ x (deps a)) e m)
  Reaches-before m (inr w) = before m w

  closed_dep :
      (done : List Text) {a d : Text}
      → IsClosed deps done
      → Memᴰ a done
      → Memᴰ d (deps a)
      → Memᴰ d done
  closed_dep [] h m n = absurd (Memᴰ.not-nil m)
  closed_dep (k ∷ done) {a} {d} h m n = elim (Memᴰ.cases_cons m) [
    | inl e ↦ Memᴰ.tail (h.0 d (subst (λ x. Memᴰ d (deps x)) e n))
    | inr m' ↦ Memᴰ.tail (closed_dep done h.2 m' n)
  ]

  pub closed_leads :
      (done : List Text) {a b : Text}
      → IsClosed deps done
      → Memᴰ a done
      → Leads deps a b
      → Memᴰ b done
  closed_leads done h m (edge n) = closed_dep done h m n
  closed_leads done h m (via w n) = closed_dep done h (closed_leads done h m w) n

  leads_behind :
      (done : List Text) {k b : Text} → IsClosed deps (k ∷ done) → Leads deps k b → Memᴰ b done
  leads_behind done h (edge n) = h.0 _ n
  leads_behind done h (via w n) = closed_dep done h.2 (leads_behind done h w) n

  pub closed_acyclic :
      (done : List Text) {a : Text} → IsClosed deps done → Memᴰ a done → ¬ Leads deps a a
  closed_acyclic [] h m w = Memᴰ.not-nil m
  closed_acyclic (k ∷ done) h m w = elim (Memᴰ.cases_cons m) [
    | inl e ↦ h.1 (leads_behind done h (subst (λ x. Leads deps x x) e w))
    | inr m' ↦ closed_acyclic done h.2 m' w
  ]
