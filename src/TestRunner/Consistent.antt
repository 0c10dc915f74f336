-- ===== src/TestRunner/Consistent.antt =====
-- A package that is compiled again for a test is compiled against the new archives of what it depends
-- on, and the test binary is linked with them.
use go2nix.Base.{
  List, [], ◌∷◌, ◌++◌, ◌≡◌, ◌≢◌, refl, sym, subst, ◌∙◌, inl, inr, ◌⊎◌, ⊎_elim, Bool, true, some,
  Text, text_eq_iff, Text-cases, Dict, lookup, ok, Memᴰ, Memᴰ-snoc,
}
use mathlib.Core.List.Memᴰ
use mathlib.Core.List.{head-eq_of_cons-eq, tail-eq_of_cons-eq}
use go2nix.LocalPackages.{LocalPkg}
use go2nix.Importcfg.Lines.{Clean}
use go2nix.TestRunner.Override.Entries.{Plain}
use go2nix.TestRunner.Step.{
  Options, Call, Progress, recompiled_archive, compile_content, override_both,
}
use go2nix.TestRunner.Run.{compile_call, compile_new, recompile_call, recompile}
use go2nix.TestRunner.Entered.{
  new_archive, recompiled_archive-Clean, new_archive-other, calls-override_both, Entered, Good,
  override_both-Good,
}

module _ (opts : Options) (target : Text) (compile : Call → Bool)
    (compiles : (call : Call) → compile call ≡ true) (go_versions : Dict Text)
    (pkg_map : Dict LocalPkg) (clean_dir : Clean opts.trim_path) (clean_target : Clean target) where
  abbrev pub with_call : Call → Progress → Progress
  with_call call pr = record pr { calls = pr.calls ++ call ∷ [] }

  pub compile_new_lem :
      (call : Call) (pr : Progress)
      → compile_new compile call pr
        ≡ ok (override_both call.import_path call.output (with_call call pr))
  unfolding compile_new compile_call
  compile_new_lem call pr = rw (compiles call) refl

  -- The call for a package, which reads an importcfg with the new archives.
  abbrev pub CallFor : (Text → Type 0) → List Call → Text → Type 0
  CallFor D calls k =
      (call : Call) × Memᴰ call calls
      × (call.import_path ≡ k)
      × (call.output ≡ recompiled_archive opts target k)
      × ((d : Text) → D d → Entered opts target call.import_cfg d)

  pub record Recompiled (D : Text → Type 0) (todo : List Text) (pr after : Progress) : Type 0 where
    pub good : Good opts target (λ d. D d ⊎ Memᴰ d todo) after
    pub keeps : (call : Call) → Memᴰ call pr.calls → Memᴰ call after.calls
    pub called :
        (before : List Text) (k : Text) (rest : List Text)
        → todo ≡ before ++ k ∷ rest
        → CallFor (λ d. D d ⊎ Memᴰ d before) after.calls k

  abbrev With : (Text → Type 0) → Text → Text → Type 0
  With D j d = D d ⊎ (d ≡ j)

  one_more-Good :
      (D : Text → Type 0) (j : Text) (pr : Progress)
      → Good opts target D pr
      → Plain j
      → j ≢ target
      → Good opts target (With D j) (override_both j (recompiled_archive opts target j) pr)
  one_more-Good D j pr g p n =
      override_both-Good opts target D (With D j) j (recompiled_archive opts target j) pr g p
        (recompiled_archive-Clean opts target j clean_dir clean_target p.0)
        (λ d. ⊎_elim (g.named d) (λ e. subst Plain (sym e) p))
        (λ d e. elim (Text-cases d j) [
          | inl q ↦ inl (
            q,
            subst (λ x. recompiled_archive opts target j ≡ new_archive opts target x) (sym q)
                (new_archive-other opts target j n),
          )
          | inr f ↦ inr (
            λ q. cc (f, (text_eq_iff d j).1 q),
            elim e [ inl old ↦ old | inr q ↦ cc (f, (text_eq_iff d j).1 q) ],
          )
        ])

  recompile-cons :
      (j : Text) (todo : List Text) (pkg : LocalPkg) (pr : Progress)
      → lookup j pkg_map ≡ some pkg
      → recompile compile opts go_versions pkg_map target (j ∷ todo) pr
        ≡ recompile compile opts go_versions pkg_map target todo (
            override_both j
              (recompiled_archive opts target j)
              (with_call (recompile_call compile opts go_versions target j pkg pr) pr))
  unfolding recompile
  recompile-cons j todo pkg pr found =
      rw
        (
          found,
          recompile,
          compile_new_lem (recompile_call compile opts go_versions target j pkg pr) pr,
        )
        refl

  -- One more package in front of those that are compiled again.
  Recompiled-cons :
      (D : Text → Type 0) (j : Text) (todo : List Text) (pr next after : Progress) (call : Call)
      → Good opts target D pr
      → ((c : Call) → Memᴰ c (pr.calls ++ call ∷ []) → Memᴰ c next.calls)
      → call.import_path ≡ j
      → call.output ≡ recompiled_archive opts target j
      → call.import_cfg ≡ compile_content pr
      → Recompiled (With D j) todo next after
      → Recompiled D (j ∷ todo) pr after
  Recompiled-cons D j todo pr next after call g into named output read r = record {
    good = record {
      plain_link = r.good.plain_link;
      plain_compile = r.good.plain_compile;
      named = λ d e. r.good.named d (shift d e);
      linked = λ d e. r.good.linked d (shift d e);
      compiled = λ d e. r.good.compiled d (shift d e);
    };
    keeps = λ c m. r.keeps c (into c ((Memᴰ-snoc c call pr.calls).1 (inl m)));
    called = at;
  }
    where
      shift : (d : Text) → D d ⊎ Memᴰ d (j ∷ todo) → With D j d ⊎ Memᴰ d todo
      shift d (inl h) = inl (inl h)
      shift d (inr m) = ⊎_elim (λ e. inl (inr e)) inr (Memᴰ.cases_cons m)

      at :
          (before : List Text) (k : Text) (rest : List Text)
          → j ∷ todo ≡ before ++ k ∷ rest
          → CallFor (λ d. D d ⊎ Memᴰ d before) after.calls k
      at [] k rest q =
          let e : j ≡ k = head-eq_of_cons-eq q in
          subst (λ x. CallFor (λ d. D d ⊎ Memᴰ d []) after.calls x) e
            (
              call,
              r.keeps call (into call ((Memᴰ-snoc call call pr.calls).1 (inr refl))),
              named,
              output,
              λ d.
                  ⊎_elim (λ h. subst (λ c. Entered opts target c d) (sym read) (g.compiled d h))
                    (λ m. absurd (Memᴰ.not-nil m)),
            )
      at (b ∷ before) k rest q =
          let e : j ≡ b = head-eq_of_cons-eq q in
          let (c, m, n, o, all) = r.called before k rest (tail-eq_of_cons-eq q) in
          (
            c,
            m,
            n,
            o,
            λ d.
                ⊎_elim (λ h. all d (inl (inl h)))
                  (λ i.
                    ⊎_elim (λ f. all d (inl (inr (f ∙ sym e)))) (λ t. all d (inr t))
                      (Memᴰ.cases_cons i)),
          )

  pub recompile_lem :
      (D : Text → Type 0) (todo : List Text) (pr : Progress)
      → ((k : Text)
          → Memᴰ k todo
          → ((pkg : LocalPkg) × (lookup k pkg_map ≡ some pkg)) × Plain k × (k ≢ target))
      → Good opts target D pr
      → (after : Progress) × (recompile compile opts go_versions pkg_map target todo pr ≡ ok after)
        × Recompiled D todo pr after
  unfolding recompile
  recompile_lem D [] pr known g = (
    pr,
    refl,
    record {
      good = record {
        plain_link = g.plain_link;
        plain_compile = g.plain_compile;
        named = λ d. ⊎_elim (g.named d) (λ m. absurd (Memᴰ.not-nil m));
        linked = λ d. ⊎_elim (g.linked d) (λ m. absurd (Memᴰ.not-nil m));
        compiled = λ d. ⊎_elim (g.compiled d) (λ m. absurd (Memᴰ.not-nil m));
      };
      keeps = λ call m. m;
      called = λ before k rest q.
          absurd
            (Memᴰ.not-nil (subst (Memᴰ k) (sym q) (Memᴰ.append_right before (Memᴰ.head refl))));
    },
  )
  recompile_lem D (j ∷ todo) pr known g =
      let ((pkg, found), p, n) = known j (Memᴰ.head refl) in
      let call = recompile_call compile opts go_versions target j pkg pr in
      let next = override_both j (recompiled_archive opts target j) (with_call call pr) in
      let same : Good opts target D (with_call call pr) = record {
        plain_link = g.plain_link;
        plain_compile = g.plain_compile;
        named = g.named;
        linked = g.linked;
        compiled = g.compiled;
      } in
      let (after, h, r) =
        recompile_lem (With D j) todo next (λ k m. known k (Memᴰ.tail m))
          (one_more-Good D j (with_call call pr) same p n) in
      (
        after,
        recompile-cons j todo pkg pr found ∙ h,
        Recompiled-cons D j todo pr next after call g
            (λ c m.
              subst (Memᴰ c)
                (sym (calls-override_both j (recompiled_archive opts target j) (with_call call pr)))
                m)
            refl refl refl r,
      )
