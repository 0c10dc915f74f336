-- ===== src/CgoFlags/PkgConfig.antt =====
-- What pkg-config flags look like that the check accepts.
use go2nix.Base.{
  List, [], ◌∷◌, ◌≡◌, ◌≢◌, refl, sym, subst, ◌⊎◌, inl, inr, Bool, true, false, Bool-cases, ◌&&◌,
  and-eq-true, Option, none, some, Text, codes, cut_prefix, has_prefix, has_prefix_split, all,
  flat_map-Memᴰ, All, ok, Memᴰ, ◌==◌, arith,
}
use mathlib.Core.List.Memᴰ
use go2nix.CgoFlags.Regex.{
  Regex, lit, class, star, ◌▸◌, alt, opt, many, stop, match_lit, matches, full_match,
}
use go2nix.CgoFlags.Match.{full_match_lem}
use go2nix.CgoFlags.Tables.{valid_pkg_config_flags}
use go2nix.CgoFlags.Check.{
  Environment, accept, skip_next, push_state, push_state_fits, scan_valid, verdict, check_args,
  pkg_config_tables, check_pkg_config_flags,
}
use go2nix.CgoFlags.Refuse.{Verdict-cases}

-- Every match of the expression begins with the text.
abbrev leads : Text → Regex → Bool
leads p (lit l) = has_prefix l p
leads p (class k) = false
leads p (star k) = false
leads p (a ▸ b) = leads p a
leads p (alt a b) = leads p a && leads p b
leads p (opt a) = false
leads p (many a) = leads p a
leads p stop = false

lit_leads :
    (l p s u : Text)
    → has_prefix l p ≡ true
    → Memᴰ u (match_lit (cut_prefix s l))
    → has_prefix s p ≡ true
lit_leads l [] s u h m = refl
lit_leads [] (c ∷ p) s u h m = cc
lit_leads (x ∷ l) (c ∷ p) [] u h m = absurd (Memᴰ.not-nil m)
lit_leads (x ∷ l) (c ∷ p) (y ∷ s) u h m = elim (Bool-cases (y == x)) [
  | inl e ↦
      let (first, rest) = and-eq-true (x == c) (has_prefix l p) h in
      ground (arith, lit_leads l p s u rest (rw e at m))
  | inr e ↦ absurd (Memᴰ.not-nil (rw e at m))
]

leads_lem :
    (r : Regex) (p s u : Text) → leads p r ≡ true → Memᴰ u (matches r s) → has_prefix s p ≡ true
unfolding matches
leads_lem (lit l) p s u h m = lit_leads l p s u h m
leads_lem (class k) p s u h m = cc
leads_lem (star k) p s u h m = cc
leads_lem (a ▸ b) p s u h m =
    let (v, n, _) = flat_map-Memᴰ (matches b) (matches a s) m in leads_lem a p s v h n
leads_lem (alt a b) p s u h m =
    let (first, second) = and-eq-true (leads p a) (leads p b) h in
    elim (Memᴰ.append_cases (matches a s) m) [
      | inl n ↦ leads_lem a p s u first n
      | inr n ↦ leads_lem b p s u second n
    ]
leads_lem (opt a) p s u h m = cc
leads_lem (many a) p s u h m =
    let (v, n, _) = flat_map-Memᴰ _ (matches a s) m in leads_lem a p s v h n
leads_lem stop p s u h m = cc

abbrev dashes : Text
dashes = codes "--"

table_leads : all (leads dashes) valid_pkg_config_flags ≡ true
table_leads = refl

-- The empty flag passes, since FindString returns the empty text where it finds nothing.
abbrev pub IsLong : Text → Type 0
IsLong arg = (arg ≡ []) ⊎ (has_prefix arg dashes ≡ true)

full_match-IsLong :
    (arg : Text) (r : Regex) → leads dashes r ≡ true → full_match arg r ≡ true → IsLong arg
full_match-IsLong [] r l h = inl refl
full_match-IsLong (c ∷ s) r l h = inr (leads_lem r dashes (c ∷ s) [] l (full_match_lem r c s h))

-- No command behind -Wl,--push-state is in the table, the name itself to begin with.
no_push_state :
    (arg : Text) → has_prefix arg push_state ≡ true → push_state_fits pkg_config_tables arg ≡ false
unfolding push_state_fits full_match
no_push_state arg h =
    let (u, e) = has_prefix_split arg push_state h in
    subst (λ x. push_state_fits pkg_config_tables x ≡ false) (sym e) refl

scan_valid-IsLong :
    (arg : Text) (rest : List Regex)
    → all (leads dashes) rest ≡ true
    → scan_valid pkg_config_tables rest arg ≡ some true
    → IsLong arg
unfolding scan_valid
scan_valid-IsLong arg [] l h = cc
scan_valid-IsLong arg (r ∷ rest) l h =
    let (first, others) = and-eq-true (leads dashes r) (all (leads dashes) rest) l in
    elim (Bool-cases (full_match arg r)) [
      | inl e ↦ full_match-IsLong arg r first e
      | inr e ↦ elim (Bool-cases (has_prefix arg push_state)) [
        | inl q ↦ cc (no_push_state arg q, rw (e, q) at h)
        | inr q ↦ scan_valid-IsLong arg rest others (rw (e, q) at h)
      ]
    ]

module _ (source : Text) where
  -- With no entry in `validNext` no argument is taken with the next one.
  verdict-accept :
      (arg : Text) (next : Option Text)
      → (verdict source pkg_config_tables none none arg next ≢ skip_next)
        × (verdict source pkg_config_tables none none arg next ≡ accept
            → scan_valid pkg_config_tables valid_pkg_config_flags arg ≡ some true)
  unfolding verdict
  verdict-accept arg next = ground arith

  check_args-IsLong :
      (list : List Text)
      → check_args source pkg_config_tables none none list ≡ ok tt
      → All IsLong list
  unfolding check_args
  check_args-IsLong [] h = tt
  check_args-IsLong (arg ∷ []) h =
      elim (Verdict-cases (verdict source pkg_config_tables none none arg none)) [
        | inl v ↦ (
          scan_valid-IsLong arg valid_pkg_config_flags table_leads ((verdict-accept arg none).1 v),
          tt,
        )
        | inr (inl v) ↦ absurd ((verdict-accept arg none).0 v)
        | inr (inr (e, v)) ↦ cc (rw (v, check_args) at h)
      ]
  check_args-IsLong (arg ∷ next ∷ rest) h =
      elim (Verdict-cases (verdict source pkg_config_tables none none arg (some next))) [
        | inl v ↦ (
          scan_valid-IsLong arg valid_pkg_config_flags table_leads
              ((verdict-accept arg (some next)).1 v),
          check_args-IsLong (next ∷ rest) (rw (v, check_args) at h),
        )
        | inr (inl v) ↦ absurd ((verdict-accept arg (some next)).0 v)
        | inr (inr (e, v)) ↦ cc (rw (v, check_args) at h)
      ]

-- Every pkg-config flag that the check accepts is empty or begins with two dashes, so that it is
-- never a package name, a file of arguments or a short option.
pub check_pkg_config_flags-IsLong :
    (env : Environment) (name source : Text) (list : List Text)
    → check_pkg_config_flags env name source list ≡ ok tt
    → All IsLong list
unfolding check_pkg_config_flags
check_pkg_config_flags-IsLong env name source list h = check_args-IsLong source list h
