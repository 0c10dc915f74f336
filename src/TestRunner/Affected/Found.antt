-- ===== src/TestRunner/Affected/Found.antt =====
-- The loop over the queue finds the reachable packages that depend on the target.
use go2nix.Base.{
  ℕ, zero, suc, ◌+◌, ◌≤◌, ◌<◌, List, [], ◌∷◌, ◌++◌, ◌≡◌, ◌≢◌, refl, sym, ap, subst, inl, inr, ◌⊎◌,
  ⊎_elim, ◌↔◌, false, Bool-cases, Text, text_eq, text_eq_iff, any, any-text_eq, length,
  length-append, List-cases, Dict, keys, Memᴰ, Memᴰ-snoc, arith,
}
use mathlib.Core.List.Memᴰ
use go2nix.Base.Seen.{Memᴰ-any, unseen, unseen-lt, unseen_bound}
use go2nix.Toposort.Walk.{Leads}
use go2nix.LocalPackages.{LocalPkg}
use go2nix.TestRunner.Affected.{
  local_deps_of, Spread, add_affected, rev_deps, visit_rdep, visit_rdeps, spread, affected_keys,
}
use go2nix.TestRunner.Affected.Reverse.{local_deps_of-keys, rev_deps-Memᴰ}

module _ (pkg_map : Dict LocalPkg) where
  module _ (target : Text) (reachable : List Text) where
    -- The packages that depend on one and that the test reaches have been found.
    abbrev Done : List Text → Text → Type 0
    Done affected x =
        (r : Text) → Memᴰ r (rev_deps pkg_map x) → r ≢ target → Memᴰ r reachable → Memᴰ r affected

    abbrev Source : List Text → Text → Type 0
    Source affected x = (x ≡ target) ⊎ Memᴰ x affected

    abbrev Right : Text → Type 0
    Right k = (k ≢ target) × Memᴰ k reachable × Leads (local_deps_of pkg_map) k target

    record Inv (exempt : Text → Type 0) (s : Spread) : Type 0 where
      sound : (k : Text) → Memᴰ k s.affected → Right k
      queued : (k : Text) → Memᴰ k s.queue → Source s.affected k
      explored : (k : Text) → Source s.affected k → Memᴰ k s.queue ⊎ exempt k ⊎ Done s.affected k

    record Grows (s t : Spread) : Type 0 where
      keeps : (k : Text) → Memᴰ k s.affected → Memᴰ k t.affected
      weight :
          length t.queue + unseen (keys pkg_map) t.affected
          ≤ length s.queue + unseen (keys pkg_map) s.affected

    Source-snoc : (k r : Text) (a : List Text) → Source (a ++ r ∷ []) k → Source a k ⊎ (k ≡ r)
    Source-snoc k r a (inl e) = inl (inl e)
    Source-snoc k r a (inr m) = ⊎_elim (λ old. inl (inr old)) inr ((Memᴰ-snoc k r a).0 m)

    add_affected-Inv :
        (exempt : Text → Type 0) (r : Text) (s : Spread)
        → Inv exempt s
        → Right r
        → Inv exempt (add_affected r s)
    add_affected-Inv exempt r s v right = record {
      sound = λ k m. elim ((Memᴰ-snoc k r s.affected).0 m) [
        | inl old ↦ v.sound k old
        | inr e ↦ subst Right (sym e) right
      ];
      queued = λ k m. elim ((Memᴰ-snoc k r s.queue).0 m) [
        | inl old ↦ ⊎_elim inl (λ n. inr ((Memᴰ-snoc k r s.affected).1 (inl n))) (v.queued k old)
        | inr e ↦ inr ((Memᴰ-snoc k r s.affected).1 (inr e))
      ];
      explored = λ k m. elim (Source-snoc k r s.affected m) [
        | inr e ↦ inl ((Memᴰ-snoc k r s.queue).1 (inr e))
        | inl old ↦ elim (v.explored k old) [
          | inl waits ↦ inl ((Memᴰ-snoc k r s.queue).1 (inl waits))
          | inr (inl x) ↦ inr (inl x)
          | inr (inr done) ↦
              inr (inr (λ x i n h. (Memᴰ-snoc x r s.affected).1 (inl (done x i n h))))
        ]
      ];
    }

    add_affected-Grows :
        (r : Text) (s : Spread)
        → Memᴰ r (keys pkg_map)
        → any (text_eq r) s.affected ≡ false
        → Grows s (add_affected r s)
    add_affected-Grows r s inside new = record {
      keeps = λ k m. (Memᴰ-snoc k r s.affected).1 (inl m);
      weight = omega (
        arith,
        length-append {A = Text} s.queue (r ∷ []),
        unseen-lt (keys pkg_map) r s.affected inside new,
      );
    }

    Grows-refl : (s : Spread) → Grows s s
    Grows-refl s = record { keeps = λ k m. m; weight = omega arith }

    Grows-trans : {s t u : Spread} → Grows s t → Grows t u → Grows s u
    Grows-trans g h = record {
      keeps = λ k m. h.keeps k (g.keeps k m);
      weight = omega (arith, g.weight, h.weight);
    }

    Right-after :
        (r cur : Text)
        → Memᴰ r (rev_deps pkg_map cur)
        → (cur ≡ target) ⊎ Right cur
        → r ≢ target
        → Memᴰ r reachable
        → Right r
    Right-after r cur m src n h =
        let dep : Memᴰ cur (local_deps_of pkg_map r) = (rev_deps-Memᴰ pkg_map r cur).0 m in
        (
          n,
          h,
          elim src [
            | inl e ↦ Leads.edge (subst (λ x. Memᴰ x (local_deps_of pkg_map r)) e dep)
            | inr (_, _, lead) ↦ longer dep lead
          ],
        )
      where
        longer :
            {a b c : Text}
            → Memᴰ b (local_deps_of pkg_map a)
            → Leads (local_deps_of pkg_map) b c
            → Leads (local_deps_of pkg_map) a c
        longer m (Leads.edge n) = Leads.via (Leads.edge m) n
        longer m (Leads.via w n) = Leads.via (longer m w) n

    visit_rdep_lem :
        (exempt : Text → Type 0) (cur r : Text) (s : Spread)
        → Inv exempt s
        → Memᴰ r (rev_deps pkg_map cur)
        → (cur ≡ target) ⊎ Right cur
        → Inv exempt (visit_rdep pkg_map target reachable r s)
          × Grows s (visit_rdep pkg_map target reachable r s)
          × (r ≢ target
              → Memᴰ r reachable
              → Memᴰ r (visit_rdep pkg_map target reachable r s).affected)
    unfolding visit_rdep
    visit_rdep_lem exempt cur r s v m src = elim (Bool-cases (text_eq r target)) [
      | inl e ↦ rw e (v, Grows-refl s, λ n h. absurd (n ((text_eq_iff r target).0 e)))
      | inr e ↦ elim (Bool-cases (any (text_eq r) s.affected)) [
        | inl f ↦ rw (e, f) (v, Grows-refl s, λ n h. any-text_eq r s.affected f)
        | inr f ↦ elim (Bool-cases (any (text_eq r) reachable)) [
          | inr g ↦ rw (e, f, g) (v, Grows-refl s, λ n h. cc (g, Memᴰ-any r reachable h))
          | inl g ↦
              let other : r ≢ target = λ q. cc (e, (text_eq_iff r target).1 q) in
              let right = Right-after r cur m src other (any-text_eq r reachable g) in
              rw (e, f, g)
                (
                  add_affected-Inv exempt r s v right,
                  add_affected-Grows r s
                      (local_deps_of-keys pkg_map r cur ((rev_deps-Memᴰ pkg_map r cur).0 m)) f,
                  λ n h. (Memᴰ-snoc r r s.affected).1 (inr refl),
                )
        ]
      ]
    ]

    visit_rdeps_lem :
        (exempt : Text → Type 0) (cur : Text) (rdeps : List Text) (s : Spread)
        → Inv exempt s
        → ((r : Text) → Memᴰ r rdeps → Memᴰ r (rev_deps pkg_map cur))
        → (cur ≡ target) ⊎ Right cur
        → Inv exempt (visit_rdeps pkg_map target reachable rdeps s)
          × Grows s (visit_rdeps pkg_map target reachable rdeps s)
          × ((r : Text)
              → Memᴰ r rdeps
              → r ≢ target
              → Memᴰ r reachable
              → Memᴰ r (visit_rdeps pkg_map target reachable rdeps s).affected)
    unfolding visit_rdeps
    visit_rdeps_lem exempt cur [] s v inside src =
        (v, Grows-refl s, λ r m n h. absurd (Memᴰ.not-nil m))
    visit_rdeps_lem exempt cur (r ∷ rest) s v inside src =
        let (v', g, now) = visit_rdep_lem exempt cur r s v (inside r (Memᴰ.head refl)) src in
        let (v'', g', later) =
          visit_rdeps_lem exempt cur rest (visit_rdep pkg_map target reachable r s) v'
            (λ x m. inside x (Memᴰ.tail m)) src in
        (
          v'',
          Grows-trans g g',
          λ x m n h. elim (Memᴰ.cases_cons m) [
            | inl q ↦ g'.keeps x (
                subst (λ y. Memᴰ y (visit_rdep pkg_map target reachable r s).affected) (sym q)
                  (now (subst (λ y. y ≢ target) q n) (subst (λ y. Memᴰ y reachable) q h)))
            | inr t ↦ later x t n h
          ],
        )

    -- The state of a round, with the first of the queue taken off.
    pop-Inv :
        (s : Spread) (cur : Text) (rest : List Text)
        → s.queue ≡ cur ∷ rest
        → Inv (λ _. ⊥) s
        → Inv (λ k. k ≡ cur) (record s { queue = rest })
    pop-Inv s cur rest q v = record {
      sound = v.sound;
      queued = λ k m. v.queued k (subst (Memᴰ k) (sym q) (Memᴰ.tail m));
      explored = λ k m. elim (v.explored k m) [
        | inl waits ↦
            ⊎_elim (λ e. inr (inl e)) (λ t. inl t) (Memᴰ.cases_cons (subst (Memᴰ k) q waits))
        | inr (inl x) ↦ absurd x
        | inr (inr done) ↦ inr (inr done)
      ];
    }

    settle-Inv :
        (s : Spread) (cur : Text) → Inv (λ k. k ≡ cur) s → Done s.affected cur → Inv (λ _. ⊥) s
    settle-Inv s cur v done = record {
      sound = v.sound;
      queued = v.queued;
      explored = λ k m. elim (v.explored k m) [
        | inl waits ↦ inl waits
        | inr (inl e) ↦ inr (inr (subst (Done s.affected) (sym e) done))
        | inr (inr d) ↦ inr (inr d)
      ];
    }

    record IsSpread (affected : List Text) : Type 0 where
      sound : (k : Text) → Memᴰ k affected → Right k
      closed : (k : Text) → Source affected k → Done affected k

    end-IsSpread : (s : Spread) → s.queue ≡ [] → Inv (λ _. ⊥) s → IsSpread s.affected
    end-IsSpread s q v = record {
      sound = v.sound;
      closed = λ k m. elim (v.explored k m) [
        | inl waits ↦ absurd (Memᴰ.not-nil (subst (Memᴰ k) q waits))
        | inr (inl x) ↦ absurd x
        | inr (inr done) ↦ done
      ];
    }

    spread-IsSpread :
        (fuel : ℕ) (s : Spread)
        → Inv (λ _. ⊥) s
        → length s.queue + unseen (keys pkg_map) s.affected < fuel
        → IsSpread (spread pkg_map target reachable fuel s)
    unfolding spread
    spread-IsSpread zero s v enough = absurd (omega arith)
    spread-IsSpread (suc fuel) s v enough = elim (List-cases s.queue) [
      | inl q ↦ rw (q, spread) (end-IsSpread s q v)
      | inr (cur, rest, q) ↦
          let src : (cur ≡ target) ⊎ Right cur =
            ⊎_elim inl (λ m. inr (v.sound cur m))
              (v.queued cur (subst (Memᴰ cur) (sym q) (Memᴰ.head refl))) in
          let popped : Spread = record s { queue = rest } in
          let (v', g, done) =
            visit_rdeps_lem (λ k. k ≡ cur) cur (rev_deps pkg_map cur) popped
              (pop-Inv s cur rest q v) (λ r m. m) src in
          let next = visit_rdeps pkg_map target reachable (rev_deps pkg_map cur) popped in
          rw (q, spread)
            (spread-IsSpread fuel next (settle-Inv next cur v' done)
              (omega (arith, g.weight, ap (length {A = Text}) q)))
    ]

    leads_spread :
        (affected : List Text)
        → IsSpread affected
        → ((p d : Text) → Memᴰ p reachable → Memᴰ d (local_deps_of pkg_map p) → Memᴰ d reachable)
        → {k x : Text} → Leads (local_deps_of pkg_map) k x
        → Source affected x
        → k ≢ target
        → Memᴰ k reachable
        → Memᴰ k affected
    leads_spread affected f closed {k} {x} (Leads.edge m) src n h =
        f.closed x src k ((rev_deps-Memᴰ pkg_map k x).1 m) n h
    leads_spread affected f closed {k} {x} (Leads.via {b = b} w m) src n h =
        leads_spread affected f closed w
          (elim (Bool-cases (text_eq b target)) [
            | inl e ↦ inl ((text_eq_iff b target).0 e)
            | inr e ↦ inr (
                f.closed x src b ((rev_deps-Memᴰ pkg_map b x).1 m)
                  (λ q. cc (e, (text_eq_iff b target).1 q)) (along w h))
          ])
          n h
      where
        along :
            {a b : Text} → Leads (local_deps_of pkg_map) a b → Memᴰ a reachable → Memᴰ b reachable
        along {a} (Leads.edge i) j = closed a _ j i
        along (Leads.via {b = b} v i) j = closed b _ (along v j) i

    -- Where what the test reaches has its dependencies with it, the loop finds the packages of it,
    -- but for the target, that lead to the target.
    pub affected_keys_exact :
        ((p d : Text) → Memᴰ p reachable → Memᴰ d (local_deps_of pkg_map p) → Memᴰ d reachable)
        → (k : Text)
        → Memᴰ k (affected_keys pkg_map target reachable)
          ↔ ((k ≢ target) × Memᴰ k reachable × Leads (local_deps_of pkg_map) k target)
    unfolding affected_keys
    affected_keys_exact closed k =
        let first : Spread = record { affected = []; queue = target ∷ [] } in
        let f =
          spread-IsSpread (suc (suc (length (keys pkg_map)))) first
            (record {
              sound = λ k m. absurd (Memᴰ.not-nil m);
              queued = λ k m. inl (Memᴰ.eq_of_singleton m);
              explored = λ k m. ⊎_elim (λ e. inl (Memᴰ.head e)) (λ n. absurd (Memᴰ.not-nil n)) m;
            })
            (omega (arith, unseen_bound (keys pkg_map) [])) in
        (
          λ m. f.sound k m,
          λ (n, h, lead).
              leads_spread
                (spread pkg_map target reachable (suc (suc (length (keys pkg_map)))) first) f closed
                lead (inl refl) n h,
        )
