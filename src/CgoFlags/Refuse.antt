-- ===== src/CgoFlags/Refuse.antt =====
-- A test on a prefix, run on the tables, after which checkFlags accepts no argument with the prefix.
use go2nix.Base.{
  ℕ, zero, suc, List, [], ◌∷◌, ◌≡◌, ◌≢◌, refl, subst, ◌⊎◌, inl, inr, Bool, true, false, not, ◌&&◌,
  ◌||◌, Bool-cases, Option, none, some, Text, codes, ◌==◌, ==_iff, text_eq, text_eq_iff, has_prefix,
  has_prefix_split, drop, any, All, ok, if◌then◌else◌, arith, and-eq-true, or-eq-true, Memᴰ,
}
use go2nix.CgoFlags.Regex.{Regex, full_match, matches}
use go2nix.CgoFlags.Prefix.{admits, admits_of_match}
use go2nix.CgoFlags.Match.{full_match_lem}
use go2nix.CgoFlags.Check.{
  Tables, FlagError, Verdict, accept, skip_next, refuse, invalid_flag, safe_arg, push_state,
  scan_valid, next_verdict, verdict, check_args,
}

-- Whether no text begins with both.
abbrev pub clash : Text → Text → Bool
clash [] q = false
clash (x ∷ p) [] = false
clash (x ∷ p) (y ∷ q) = let rest = clash p q in if x == y then rest else true

pub has_prefix-clash :
    (s p q : Text) → clash p q ≡ true → has_prefix s p ≡ true → has_prefix s q ≡ false
has_prefix-clash s [] q h e = cc
has_prefix-clash s (x ∷ p) [] h e = cc
has_prefix-clash [] (x ∷ p) (y ∷ q) h e = refl
has_prefix-clash (c ∷ s) (x ∷ p) (y ∷ q) h e = ground (arith, has_prefix-clash s p q)

-- A prefix `-Wl,` and a character that no safe argument begins with.
abbrev wl_unsafe : Text → Bool
wl_unsafe p =
    has_prefix p (codes "-Wl,") && not (safe_arg (drop 4 p)) && not (text_eq (drop 4 p) [])

abbrev pub screens : Tables → Text → Bool
screens t p =
    not (any (admits p) t.valid)
    && not (safe_arg p)
    && not (text_eq p [])
    && clash p push_state
    && not (any (λ x. has_prefix x p) t.valid_next)
    && (clash p (codes "-Wl,") || wl_unsafe p)
    && clash p (codes "=")
    && clash p (codes "$SYSROOT")

pub record Screened (t : Tables) (p : Text) : Type 0 where
  admitted : any (admits p) t.valid ≡ false
  unsafe : safe_arg p ≡ false
  some_text : text_eq p [] ≡ false
  push : clash p push_state ≡ true
  taking : any (λ x. has_prefix x p) t.valid_next ≡ false
  wl : (clash p (codes "-Wl,") || wl_unsafe p) ≡ true
  equals : clash p (codes "=") ≡ true
  sysroot : clash p (codes "$SYSROOT") ≡ true

pub Screened-of_screens : (t : Tables) (p : Text) → screens t p ≡ true → Screened t p
Screened-of_screens t p h = ground arith

-- Only the first character counts.
safe_arg_of_prefix :
    (s p : Text)
    → text_eq p [] ≡ false
    → has_prefix s p ≡ true
    → safe_arg p ≡ false
    → safe_arg s ≡ false
unfolding safe_arg
safe_arg_of_prefix s [] n h e = cc
safe_arg_of_prefix [] (c ∷ p) n h e = refl
safe_arg_of_prefix (x ∷ s) (c ∷ p) n h e =
    let same : x ≡ c = (==_iff x c).0 ((and-eq-true (x == c) (has_prefix s p) h).0) in rw same e

wl_unsafe_parts :
    (p : Text)
    → wl_unsafe p ≡ true
    → (safe_arg (drop 4 p) ≡ false) × (text_eq (drop 4 p) [] ≡ false)
wl_unsafe_parts p h = ground arith

pub Verdict-cases :
    (v : Verdict) → (v ≡ accept) ⊎ ((v ≡ skip_next) ⊎ ((e : FlagError) × (v ≡ refuse e)))
Verdict-cases accept = inl refl
Verdict-cases skip_next = inr (inl refl)
Verdict-cases (refuse e) = inr (inr (e, refl))

prefix_of_nil : (p : Text) → text_eq p [] ≡ false → has_prefix [] p ≡ true → false ≡ true
prefix_of_nil [] n h = cc
prefix_of_nil (c ∷ p) n h = h

has_prefix-drop :
    (n : ℕ) (s p : Text) → has_prefix s p ≡ true → has_prefix (drop n s) (drop n p) ≡ true
has_prefix-drop zero s p h = h
has_prefix-drop (suc n) s [] h = refl
has_prefix-drop (suc n) [] (c ∷ p) h = cc
has_prefix-drop (suc n) (x ∷ s) (c ∷ p) h =
    has_prefix-drop n s p (and-eq-true (x == c) (has_prefix s p) h).1

verdict-skip_next :
    (source : Text) (t : Tables) (disallow : Option (Text → Text)) (arg next : Text)
    → verdict source t none disallow arg (some next) ≡ skip_next
    → next_verdict source arg (some next) ≡ skip_next
unfolding verdict
verdict-skip_next source t disallow arg next h = ground arith

module _ (source : Text) (t : Tables) (disallow : Option (Text → Text)) (p : Text)
    (screened : Screened t p) where
  open screened use {admitted, unsafe, some_text, push, taking, wl, equals, sysroot}

  full_match_refused :
      (arg : Text) (r : Regex)
      → has_prefix arg p ≡ true
      → admits p r ≡ false
      → full_match arg r ≡ false
  full_match_refused [] r h no_match = cc (prefix_of_nil p some_text h)
  full_match_refused (c ∷ s) r h no_match = elim (Bool-cases (full_match (c ∷ s) r)) [
    | inl e ↦
        let (u, same) = has_prefix_split (c ∷ s) p h in
        cc
          (admits_of_match u r p (subst (λ x. Memᴰ [] (matches r x)) same (full_match_lem r c s e)))
    | inr e ↦ e
  ]

  scan_valid-none :
      (arg : Text) (rest : List Regex)
      → has_prefix arg p ≡ true
      → any (admits p) rest ≡ false
      → scan_valid t rest arg ≡ none
  unfolding scan_valid
  scan_valid-none arg [] h e = refl
  scan_valid-none arg (r ∷ rest) h e =
      ground (
        arith,
        full_match_refused arg r,
        has_prefix-clash arg p push_state,
        scan_valid-none arg rest,
      )

  no_taking :
      (arg : Text) (xs : List Text)
      → has_prefix arg p ≡ true
      → any (λ x. has_prefix x p) xs ≡ false
      → any (text_eq arg) xs ≡ false
  no_taking arg [] h e = refl
  no_taking arg (x ∷ xs) h e = ground (arith, text_eq_iff arg x, no_taking arg xs)

  verdict_refuses :
      (arg : Text) (next : Option Text)
      → has_prefix arg p ≡ true
      → (e : FlagError) × (verdict source t none disallow arg next ≡ refuse e)
  unfolding verdict
  verdict_refuses arg next h = (
    invalid_flag source arg,
    ground (arith, scan_valid-none arg t.valid h admitted, no_taking arg t.valid_next h taking),
  )

  wl_next :
      (next : Text)
      → has_prefix next p ≡ true
      → (has_prefix next (codes "-Wl,") && safe_arg (drop 4 next)) ≡ false
  wl_next next e = elim (or-eq-true _ _ wl) [
    | inl c ↦ rw (has_prefix-clash next p (codes "-Wl,") c e)
    | inr w ↦
        let (unsafe_rest, some_rest) = wl_unsafe_parts p w in
        rw
          (safe_arg_of_prefix (drop 4 next) (drop 4 p) some_rest (has_prefix-drop 4 next p e)
            unsafe_rest)
          (ground arith)
  ]

  next_unprefixed :
      (arg next : Text)
      → next_verdict source arg (some next) ≡ skip_next
      → has_prefix next p ≡ false
  unfolding next_verdict
  next_unprefixed arg next h = elim (Bool-cases (has_prefix next p)) [
    | inl e ↦ ground (
      arith,
      safe_arg_of_prefix next p some_text e unsafe,
      wl_next next e,
      has_prefix-clash next p (codes "=") equals e,
      has_prefix-clash next p (codes "$SYSROOT") sysroot e,
    )
    | inr e ↦ e
  ]

  abbrev Lacks : Text → Type 0
  Lacks arg = has_prefix arg p ≡ false

  -- An argument that is looked at lacks the prefix, where the loop goes on behind it.
  looked_at :
      (arg : Text) (next : Option Text)
      → ((e : FlagError) → verdict source t none disallow arg next ≢ refuse e)
      → Lacks arg
  looked_at arg next goes_on = elim (Bool-cases (has_prefix arg p)) [
    | inl h ↦ let (e, v) = verdict_refuses arg next h in absurd (goes_on e v)
    | inr h ↦ h
  ]

  pub check_args-Lacks :
      (list : List Text) → check_args source t none disallow list ≡ ok tt → All Lacks list
  unfolding check_args
  check_args-Lacks [] h = tt
  check_args-Lacks (arg ∷ []) h = (looked_at arg none (λ e v. cc (rw (v, check_args) at h)), tt)
  check_args-Lacks (arg ∷ next ∷ rest) h =
      elim (Verdict-cases (verdict source t none disallow arg (some next))) [
        | inl v ↦ (
          looked_at arg (some next) (λ e w. cc),
          check_args-Lacks (next ∷ rest) (rw (v, check_args) at h),
        )
        | inr (inl v) ↦ (
          looked_at arg (some next) (λ e w. cc),
          (
            next_unprefixed arg next (verdict-skip_next source t disallow arg next v),
            check_args-Lacks rest (rw (v, check_args) at h),
          ),
        )
        | inr (inr (e, v)) ↦ cc (rw (v, check_args) at h)
      ]
