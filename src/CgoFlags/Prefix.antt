-- ===== src/CgoFlags/Prefix.antt =====
-- What a regular expression of cgosecurity.go can match whole among the texts that begin with a
-- given prefix: an over-approximation by running it on the prefix alone.
use go2nix.Base.{
  ℕ, zero, suc, List, [], ◌∷◌, ◌++◌, ◌≡◌, refl, subst, ◌⊎◌, inl, inr, Bool, true, false, ◌||◌,
  Bool-cases, Text, ◌==◌, cut_prefix, any, flat_map-Memᴰ, length, if◌then◌else◌, Memᴰ, arith,
}
use mathlib.Core.List.Memᴰ
use go2nix.CgoFlags.Regex.{
  Class, Regex, lit, class, star, ◌▸◌, alt, opt, many, stop, in_class, match_lit, match_class,
  match_star, match_many, match_stop, matches,
}

-- The matches of the prefix with an unknown text behind it: `over` if some may reach into the
-- unknown text, and what the others leave of the prefix.
pub record Run : Type 0 where
  pub over : Bool
  pub rests : List Text

abbrev pub miss : Run
miss = record { over = false; rests = [] }

abbrev pub left : Text → Run
left p = record { over = false; rests = p ∷ [] }

abbrev pub join : Run → Run → Run
join a b = record { over = a.over || b.over; rests = a.rests ++ b.rests }

abbrev pub follow : (Text → Run) → List Text → Run
follow go [] = miss
follow go (p ∷ ps) = join (go p) (follow go ps)

abbrev pub chain : (Text → Run) → Run → Run
chain go r = join (record { over = r.over; rests = [] }) (follow go r.rests)

run_lit : Text → Text → Run
run_lit [] p = left p
run_lit (c ∷ l) [] = record { over = true; rests = [] }
run_lit (c ∷ l) (x ∷ p) = let rest = run_lit l p in if x == c then rest else miss

run_class : Class → Text → Run
run_class k [] = record { over = true; rests = [] }
run_class k (x ∷ p) = if in_class k x then left p else miss

run_star : Class → Text → Run
run_star k [] = record { over = true; rests = [] ∷ [] }
run_star k (x ∷ p) =
    let longer = join (run_star k p) (left (x ∷ p)) in if in_class k x then longer else left (x ∷ p)

run_many : ℕ → (Text → Run) → Text → Run
run_many zero go p = record { over = true; rests = [] }
run_many (suc rounds) go p = join (chain (run_many rounds go) (go p)) (left p)

run_stop : Text → Run
run_stop [] = record { over = true; rests = [] }
run_stop (x ∷ p) = miss

pub run : Regex → Text → Run
unfolding run_lit run_class run_star run_many run_stop in_class
run (lit l) p = run_lit l p
run (class k) p = run_class k p
run (star k) p = run_star k p
run (a ▸ b) p = chain (run b) (run a p)
run (alt a b) p = join (run a p) (run b p)
run (opt a) p = join (run a p) (left p)
run (many a) p = chain (run_many 8 (run a)) (run a p)
run stop p = run_stop p

abbrev empty : Text → Bool
empty [] = true
empty (_ ∷ _) = false

-- Whether a text with the prefix may be matched whole.
unfoldable pub admits : Text → Regex → Bool
unfolding run
admits p r = (run r p).over || any empty (run r p).rests

module _ (t : Text) where
  -- The run accounts for a match that leaves `u` of the whole text.
  abbrev Covers : Run → Text → Type 0
  Covers r u = (r.over ≡ true) ⊎ ((q : Text) × Memᴰ q r.rests × (u ≡ q ++ t))

  Covers-left : (p : Text) → Covers (left p) (p ++ t)
  Covers-left p = inr (p, Memᴰ.head refl, refl)

  Covers-join_left : (a b : Run) (u : Text) → Covers a u → Covers (join a b) u
  Covers-join_left a b u (inl e) = inl (rw e)
  Covers-join_left a b u (inr (q, m, e)) = inr (q, Memᴰ.append_left b.rests m, e)

  Covers-join_right : (a b : Run) (u : Text) → Covers b u → Covers (join a b) u
  Covers-join_right a b u (inl e) = inl (ground (arith))
  Covers-join_right a b u (inr (q, m, e)) = inr (q, Memᴰ.append_right a.rests m, e)

  Covers-follow :
      (go : Text → Run) (ps : List Text) (q u : Text)
      → Memᴰ q ps
      → Covers (go q) u
      → Covers (follow go ps) u
  Covers-follow go [] q u m c = absurd (Memᴰ.not-nil m)
  Covers-follow go (p ∷ ps) q u m c = elim (Memᴰ.cases_cons m) [
    | inl e ↦ Covers-join_left (go p) (follow go ps) u (subst (λ x. Covers (go x) u) e c)
    | inr m' ↦ Covers-join_right (go p) (follow go ps) u (Covers-follow go ps q u m' c)
  ]

  -- A run on the rests of a run, for matches that go on where other matches stopped.
  Covers-chain :
      (go : Text → Run) (step : Text → List Text) (r : Run) (v u : Text)
      → Covers r v
      → ((p w : Text) → Memᴰ w (step (p ++ t)) → Covers (go p) w)
      → Memᴰ u (step v)
      → Covers (chain go r) u
  Covers-chain go step r v u (inl e) each m = inl (rw e)
  Covers-chain go step r v u (inr (q, n, e)) each m =
      Covers-join_right (record { over = r.over; rests = [] }) (follow go r.rests) u
        (Covers-follow go r.rests q u n (each q u (subst (λ x. Memᴰ u (step x)) e m)))

  lit-Covers : (l p u : Text) → Memᴰ u (match_lit (cut_prefix (p ++ t) l)) → Covers (run_lit l p) u
  unfolding run_lit
  lit-Covers [] p u m = inr (p, Memᴰ.head refl, Memᴰ.eq_of_singleton m)
  lit-Covers (c ∷ l) [] u m = inl refl
  lit-Covers (c ∷ l) (x ∷ p) u m = elim (Bool-cases (x == c)) [
    | inl e ↦ rw e (lit-Covers l p u (rw e at m))
    | inr e ↦ absurd (Memᴰ.not-nil (rw e at m))
  ]

  class-Covers :
      (k : Class) (p u : Text) → Memᴰ u (match_class k (p ++ t)) → Covers (run_class k p) u
  unfolding run_class match_class
  class-Covers k [] u m = inl refl
  class-Covers k (x ∷ p) u m = elim (Bool-cases (in_class k x)) [
    | inl e ↦ rw e (inr (p, Memᴰ.head refl, Memᴰ.eq_of_singleton (rw e at m)))
    | inr e ↦ absurd (Memᴰ.not-nil (rw e at m))
  ]

  star-Covers : (k : Class) (p u : Text) → Memᴰ u (match_star k (p ++ t)) → Covers (run_star k p) u
  unfolding run_star match_star
  star-Covers k [] u m = inl refl
  star-Covers k (x ∷ p) u m = elim (Bool-cases (in_class k x)) [
    | inl e ↦ rw e (elim (Memᴰ.append_cases (match_star k (p ++ t)) (rw e at m)) [
      | inl n ↦ Covers-join_left (run_star k p) (left (x ∷ p)) u (star-Covers k p u n)
      | inr n ↦
          Covers-join_right (run_star k p) (left (x ∷ p)) u
            (inr (x ∷ p, Memᴰ.head refl, Memᴰ.eq_of_singleton n))
    ])
    | inr e ↦ rw e (inr (x ∷ p, Memᴰ.head refl, Memᴰ.eq_of_singleton (rw e at m)))
  ]

  stop-Covers : (p u : Text) → Memᴰ u (match_stop (p ++ t)) → Covers (run_stop p) u
  unfolding run_stop
  stop-Covers [] u m = inl refl
  stop-Covers (x ∷ p) u m = absurd (Memᴰ.not-nil m)

  many-Covers :
      (go : Text → Run) (step : Text → List Text)
      → ((p w : Text) → Memᴰ w (step (p ++ t)) → Covers (go p) w)
      → (fuel rounds : ℕ) (p u : Text) → Memᴰ u (match_many rounds step (p ++ t))
      → Covers (run_many fuel go p) u
  unfolding run_many match_many
  many-Covers go step each zero rounds p u m = inl refl
  many-Covers go step each (suc fuel) zero p u m =
      Covers-join_right (chain (run_many fuel go) (go p)) (left p) u
        (inr (p, Memᴰ.head refl, Memᴰ.eq_of_singleton m))
  many-Covers go step each (suc fuel) (suc rounds) p u m = elim (Memᴰ.append_cases _ m) [
    | inl n ↦
        let (v, a, b) = flat_map-Memᴰ (match_many rounds step) (step (p ++ t)) n in
        Covers-join_left (chain (run_many fuel go) (go p)) (left p) u (
          Covers-chain (run_many fuel go) (match_many rounds step) (go p) v u (each p v a)
            (many-Covers go step each fuel rounds) b)
    | inr n ↦
        Covers-join_right (chain (run_many fuel go) (go p)) (left p) u
          (inr (p, Memᴰ.head refl, Memᴰ.eq_of_singleton n))
  ]

  run-Covers : (r : Regex) (p u : Text) → Memᴰ u (matches r (p ++ t)) → Covers (run r p) u
  unfolding run matches
  run-Covers (lit l) p u m = lit-Covers l p u m
  run-Covers (class k) p u m = class-Covers k p u m
  run-Covers (star k) p u m = star-Covers k p u m
  run-Covers (a ▸ b) p u m =
      let (v, n, k) = flat_map-Memᴰ (matches b) (matches a (p ++ t)) m in
      Covers-chain (run b) (matches b) (run a p) v u (run-Covers a p v n) (run-Covers b) k
  run-Covers (alt a b) p u m = elim (Memᴰ.append_cases (matches a (p ++ t)) m) [
    | inl n ↦ Covers-join_left (run a p) (run b p) u (run-Covers a p u n)
    | inr n ↦ Covers-join_right (run a p) (run b p) u (run-Covers b p u n)
  ]
  run-Covers (opt a) p u m = elim (Memᴰ.append_cases (matches a (p ++ t)) m) [
    | inl n ↦ Covers-join_left (run a p) (left p) u (run-Covers a p u n)
    | inr n ↦
        Covers-join_right (run a p) (left p) u (inr (p, Memᴰ.head refl, Memᴰ.eq_of_singleton n))
  ]
  run-Covers (many a) p u m =
      let (v, n, k) =
        flat_map-Memᴰ (match_many (length (p ++ t)) (matches a)) (matches a (p ++ t)) m in
      Covers-chain (run_many 8 (run a)) (match_many (length (p ++ t)) (matches a)) (run a p) v u
        (run-Covers a p v n) (many-Covers (run a) (matches a) (run-Covers a) 8 (length (p ++ t))) k
  run-Covers stop p u m = stop-Covers p u m

  any-empty : (rests : List Text) (q : Text) → Memᴰ q rests → [] ≡ q ++ t → any empty rests ≡ true
  any-empty [] q m e = absurd (Memᴰ.not-nil m)
  any-empty ([] ∷ rests) q m e = refl
  any-empty ((c ∷ r) ∷ rests) q m e = elim (Memᴰ.cases_cons m) [
    | inl same ↦ cc (subst (λ x. [] ≡ x ++ t) same e)
    | inr m' ↦ any-empty rests q m' e
  ]

  -- A whole match of a text with the prefix shows in the run.
  pub admits_of_match : (r : Regex) (p : Text) → Memᴰ [] (matches r (p ++ t)) → admits p r ≡ true
  unfolding admits
  admits_of_match r p m = elim (run-Covers r p [] m) [
    | inl e ↦ rw e
    | inr (q, n, e) ↦ ground (arith, any-empty (run r p).rests q n e)
  ]
