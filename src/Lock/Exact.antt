-- ===== src/Lock/Exact.antt =====
-- What `check` reports, and which replace directive counts.
use go2nix.Base.{
  List, [], ◌∷◌, ◌++◌, ◌≡◌, ◌≢◌, ◌↔◌, refl, ap, subst, ◌∙◌, inl, inr, Bool, true, false, Option,
  none, some, Option-cases, Text, text_eq_iff, text_eq_refl, lookup, sort, sort-Memᴰ, ok, err, Memᴰ,
  if◌then◌else◌, arith, All,
}
use mathlib.Core.List.Memᴰ
use go2nix.Lock.Mods.{ModVersion, Replace, GoMod, mod_eq, replaces, find_replace}
use go2nix.Lock.Check.{Lockfile, stale, report, required_key, missing_keys, check}

module _ (show : Text → Text → Text) (gm : GoMod) (lock : Lockfile) where
  -- A requirement in a list whose key the lockfile lacks.
  abbrev pub Lacking : List ModVersion → Text → Type 0
  Lacking reqs k =
      (req : ModVersion) × Memᴰ req reqs
      × (required_key show gm req ≡ some k)
      × (lookup k lock.mods ≡ none)

  Lacking-later :
      (req : ModVersion) (rest : List ModVersion) (k : Text)
      → Lacking rest k
      → Lacking (req ∷ rest) k
  Lacking-later req rest k (r, m, e, n) = (r, Memᴰ.tail m, e, n)

  missing_keys-Lacking :
      (reqs : List ModVersion) (k : Text) → Memᴰ k (missing_keys show gm lock reqs) → Lacking reqs k
  unfolding missing_keys
  missing_keys-Lacking [] k m = absurd (Memᴰ.not-nil m)
  missing_keys-Lacking (req ∷ rest) k m = elim (Option-cases (required_key show gm req)) [
    | inl e ↦ Lacking-later req rest k (missing_keys-Lacking rest k (rw (e, missing_keys) at m))
    | inr (key, e) ↦ elim (Option-cases (lookup key lock.mods)) [
      | inl n ↦ elim (Memᴰ.cases_cons (rw (e, missing_keys, n) at m)) [
        | inl same ↦ (req, Memᴰ.head refl, rw same e, rw same n)
        | inr later ↦ Lacking-later req rest k (missing_keys-Lacking rest k later)
      ]
      | inr (h, n) ↦
          Lacking-later req rest k (missing_keys-Lacking rest k (rw (e, missing_keys, n) at m))
    ]
  ]

  Lacking-missing_keys :
      (reqs : List ModVersion) (k : Text) → Lacking reqs k → Memᴰ k (missing_keys show gm lock reqs)
  unfolding missing_keys
  Lacking-missing_keys [] k (r, m, e, n) = absurd (Memᴰ.not-nil m)
  Lacking-missing_keys (req ∷ rest) k (r, m, e, n) = elim (Memᴰ.cases_cons m) [
    | inl same ↦
        let e' = subst (λ x. required_key show gm x ≡ some k) same e in
        rw (e', missing_keys, n) (Memᴰ.head refl)
    | inr later ↦ elim (Option-cases (required_key show gm req)) [
      | inl f ↦ rw (f, missing_keys) (Lacking-missing_keys rest k (r, later, e, n))
      | inr (key, f) ↦ elim (Option-cases (lookup key lock.mods)) [
        | inl g ↦ rw (f, missing_keys, g) (Memᴰ.tail (Lacking-missing_keys rest k (r, later, e, n)))
        | inr (h, g) ↦ rw (f, missing_keys, g) (Lacking-missing_keys rest k (r, later, e, n))
      ]
    ]
  ]

report_exact :
    (ms : List Text)
    → ((report ms ≡ ok tt) ↔ ((k : Text) → ¬ Memᴰ k ms))
      × ((keys : List Text) → report ms ≡ err (stale keys) → (k : Text) → Memᴰ k keys ↔ Memᴰ k ms)
report_exact [] = ((λ _ k m. Memᴰ.not-nil m, λ _. refl), λ keys h. cc)
report_exact (key ∷ rest) = (
  (λ h. cc, λ none_there. absurd (none_there key (Memᴰ.head refl))),
  λ keys h k.
      let same : sort (key ∷ rest) ≡ keys = cc in
      subst (λ x. Memᴰ k x ↔ Memᴰ k (key ∷ rest)) same (sort-Memᴰ k (key ∷ rest)),
)

-- The check accepts a lockfile exactly when it has the key of every requirement of the go.mod that
-- is not replaced by a directory, and the keys of its error are exactly those that the lockfile
-- lacks.
pub check_exact :
    (show : Text → Text → Text) (gm : GoMod) (lock : Lockfile)
    → ((check show gm lock ≡ ok tt) ↔ ((k : Text) → ¬ Lacking show gm lock gm.require k))
      × ((keys : List Text)
          → check show gm lock ≡ err (stale keys)
          → (k : Text) → Memᴰ k keys ↔ Lacking show gm lock gm.require k)
unfolding check
check_exact show gm lock =
    let to = missing_keys-Lacking show gm lock gm.require in
    let from = Lacking-missing_keys show gm lock gm.require in
    let (accepts, reports) = report_exact (missing_keys show gm lock gm.require) in
    (
      (λ h k l. accepts.0 h k (from k l), λ none_there. accepts.1 (λ k m. none_there k (to k m))),
      λ keys h k. (λ m. to k ((reports keys h k).0 m), λ l. (reports keys h k).1 (from k l)),
    )

mod_eq→eq : (a b : ModVersion) → mod_eq a b ≡ true → a ≡ b
mod_eq→eq a b h = ground (arith, text_eq_iff a.path b.path, text_eq_iff a.version b.version)

mod_eq_refl : (a : ModVersion) → mod_eq a a ≡ true
mod_eq_refl a = rw (text_eq_refl a.path, text_eq_refl a.version)

replaces-append :
    (before rest : List Replace) (found : ModVersion → Option Replace)
    → replaces (before ++ rest) found ≡ replaces rest (replaces before found)
unfolding replaces
replaces-append [] rest found = refl
replaces-append (x ∷ before) rest found = replaces-append before rest _

replaces_others :
    (rs : List Replace) (found : ModVersion → Option Replace) (req : ModVersion)
    → All (λ x. x.old ≢ req) rs
    → replaces rs found req ≡ found req
unfolding replaces
replaces_others [] found req h = refl
replaces_others (x ∷ rs) found req h =
    replaces_others rs _ req h.1 ∙ not_taken (mod_eq x.old req) refl
  where
    not_taken : (b : Bool) → mod_eq x.old req ≡ b → (if b then some x else found req) ≡ found req
    not_taken true e = absurd (h.0 (mod_eq→eq x.old req e))
    not_taken false e = refl

-- The directive for a module's version that stands last in the go.mod is the one that counts, also
-- where another one replaces every version of the module.
pub find_replace_last :
    (gm : GoMod) (req : ModVersion) (r : Replace) (before after : List Replace)
    → gm.replace ≡ before ++ r ∷ after
    → r.old ≡ req
    → All (λ x. x.old ≢ req) after
    → find_replace gm req ≡ some r
unfolding find_replace
find_replace_last gm req r before after e same others = rw (last, find_replace)
  where
    last : replaces gm.replace (λ _. none) req ≡ some r
    last =
        ap (λ rs. replaces rs (λ _. none) req) e
        ∙ ap (λ f. f req) (replaces-append before (r ∷ after) (λ _. none))
        ∙ (unfold replaces in replaces_others after _ req others)
        ∙ rw (same, mod_eq_refl req)
