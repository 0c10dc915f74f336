-- ===== src/TestRunner/Entered.antt =====
-- What both importcfgs have of the new archives, before and after one more is entered.
use go2nix.Base.{
  ℕ, [], ◌∷◌, ◌++◌, ◌≡◌, ◌≢◌, refl, sym, ap, subst, ◌∙◌, inl, inr, ◌⊎◌, ⊎_elim, false, ◌||◌,
  Bool-cases, Option, none, some, Text, codes, text_eq, text_eq_iff, ◌==◌, arith, if◌then◌else◌,
}
use go2nix.Importcfg.Lines.{Without, Clean}
use go2nix.TestRunner.Override.{entry, override_entry}
use go2nix.TestRunner.Override.Entries.{
  Plain, PlainContent, Clean-append, override_entry_lem, entries_for, entries_overridden,
  entries_kept,
}
use go2nix.TestRunner.Step.{
  Options, Progress, sanitize, test_dir, recompiled_archive, internal_archive, compile_content,
  map_given, override_both,
}

sanitize-Without : (c : ℕ) (s : Text) → (b'_' == c) ≡ false → Without c s → Without c (sanitize s)
sanitize-Without c [] e h = refl
sanitize-Without c (x ∷ s) e h = elim (Bool-cases ((x == b'/') || (x == b'.'))) [
  | inl q ↦ rw (q, e) (sanitize-Without c s e (ground arith))
  | inr q ↦
      let first : (x == c) ≡ false = ground arith in
      rw (q, first) (sanitize-Without c s e (ground arith))
]

pub sanitize-Clean : (s : Text) → Clean s → Clean (sanitize s)
sanitize-Clean s (m, n) = (sanitize-Without 10 s refl m, sanitize-Without 13 s refl n)

-- The archive that takes the place of a package's.
abbrev pub new_archive : Options → Text → Text → Text
new_archive opts target d =
    if text_eq d target then internal_archive opts target else recompiled_archive opts target d

pub test_dir-Clean :
    (opts : Options) (target : Text)
    → Clean opts.trim_path
    → Clean target
    → Clean (test_dir opts target)
test_dir-Clean opts target h k =
    Clean-append opts.trim_path (codes "/test-" ++ sanitize target) h
      (Clean-append (codes "/test-") (sanitize target) (refl, refl) (sanitize-Clean target k))

pub recompiled_archive-Clean :
    (opts : Options) (target d : Text)
    → Clean opts.trim_path
    → Clean target
    → Clean d
    → Clean (recompiled_archive opts target d)
recompiled_archive-Clean opts target d h k c =
    Clean-append (test_dir opts target) (codes "/recomp-" ++ (sanitize d ++ codes ".a"))
      (test_dir-Clean opts target h k)
      (Clean-append (codes "/recomp-") (sanitize d ++ codes ".a") (refl, refl)
        (Clean-append (sanitize d) (codes ".a") (sanitize-Clean d c) (refl, refl)))

pub new_archive-other :
    (opts : Options) (target d : Text)
    → d ≢ target
    → recompiled_archive opts target d ≡ new_archive opts target d
new_archive-other opts target d n = elim (Bool-cases (text_eq d target)) [
  | inl e ↦ absurd (n ((text_eq_iff d target).0 e))
  | inr e ↦ rw e refl
]

compile_content-override_both :
    (j archive : Text) (pr : Progress)
    → compile_content (override_both j archive pr) ≡ override_entry j archive (compile_content pr)
unfolding override_both
compile_content-override_both j archive pr = at pr.compile_cfg
  where
    at :
        (o : Option Text)
        → compile_content (record pr {
          link_cfg = override_entry j archive pr.link_cfg;
          compile_cfg = map_given (override_entry j archive) o;
        })
          ≡ override_entry j archive (compile_content (record pr { compile_cfg = o }))
    at none = refl
    at (some content) = refl

pub calls-override_both :
    (j archive : Text) (pr : Progress) → (override_both j archive pr).calls ≡ pr.calls
unfolding override_both
calls-override_both j archive pr = refl

module _ (opts : Options) (target : Text) where
  -- The entries for an import path are its new archive's.
  abbrev pub Entered : Text → Text → Type 0
  Entered content d = entries_for d content ≡ entry d (new_archive opts target d) ∷ []

  -- Both importcfgs have the new archives of some packages.
  pub record Good (D : Text → Type 0) (pr : Progress) : Type 0 where
    pub plain_link : PlainContent pr.link_cfg
    pub plain_compile : PlainContent (compile_content pr)
    pub named : (d : Text) → D d → Plain d
    pub linked : (d : Text) → D d → Entered pr.link_cfg d
    pub compiled : (d : Text) → D d → Entered (compile_content pr) d

  Entered-after :
      (j archive content d : Text)
      → Plain j
      → Clean archive
      → PlainContent content
      → Without b'=' d
      → ((d ≡ j) × (archive ≡ new_archive opts target d)) ⊎ ((d ≢ j) × Entered content d)
      → Entered (override_entry j archive content) d
  Entered-after j archive content d p a plain w (inl (e, f)) =
      subst
        (λ x.
          entries_for x (override_entry j archive content)
          ≡ entry x (new_archive opts target d) ∷ [])
        (sym e) (entries_overridden j archive content p.0 a plain ∙ ap (λ x. entry j x ∷ []) f)
  Entered-after j archive content d p a plain w (inr (n, h)) =
      entries_kept d j archive content p w a plain n ∙ h

  pub override_both-Good :
      (D E : Text → Type 0) (j archive : Text) (pr : Progress)
      → Good D pr
      → Plain j
      → Clean archive
      → ((d : Text) → E d → Plain d)
      → ((d : Text) → E d → ((d ≡ j) × (archive ≡ new_archive opts target d)) ⊎ ((d ≢ j) × D d))
      → Good E (override_both j archive pr)
  unfolding override_both
  override_both-Good D E j archive pr g p a named cases = record {
    plain_link = (override_entry_lem j archive pr.link_cfg p.0 a g.plain_link).1;
    plain_compile =
        subst PlainContent (sym (compile_content-override_both j archive pr))
          (override_entry_lem j archive (compile_content pr) p.0 a g.plain_compile).1;
    named = named;
    linked = λ d e.
        Entered-after j archive pr.link_cfg d p a g.plain_link (named d e).1
          (⊎_elim inl (λ (n, h). inr (n, g.linked d h)) (cases d e));
    compiled = λ d e.
        subst (λ c. Entered c d) (sym (compile_content-override_both j archive pr))
          (Entered-after j archive (compile_content pr) d p a g.plain_compile (named d e).1
            (⊎_elim inl (λ (n, h). inr (n, g.compiled d h)) (cases d e)));
  }
