-- ===== src/Embeds/Merged.antt =====
-- What the merged configuration has.
use go2nix.Base.{
  List, [], ◌∷◌, ◌≡◌, ◌≢◌, refl, sym, ap, ◌∙◌, inl, inr, ◌⊎◌, ⊎_elim, ◌↔◌, Bool, true, false,
  Bool-cases, Option, none, some, Text, text_eq, text_eq_iff, text_eq_refl, Dict, lookup, insert,
  lookup-insert, ok, err, arith,
}
use go2nix.Manifest.{EmbedCfg}
use go2nix.Embeds.{
  MergeError, inconsistent_pattern, inconsistent_file, slice_equal, agrees, add_entries, add_cfg,
  merge_embed_cfg,
}

slice_equal_iff : (a b : List Text) → (slice_equal a b ≡ true) ↔ (a ≡ b)
slice_equal_iff [] [] = (λ _. refl, λ _. refl)
slice_equal_iff [] (y ∷ b) = (λ h. cc, λ h. cc)
slice_equal_iff (x ∷ a) [] = (λ h. cc, λ h. cc)
slice_equal_iff (x ∷ a) (y ∷ b) = ground (arith, text_eq_iff x y, slice_equal_iff a b)

-- A map with one entry to a key.
abbrev pub Unique : {V : Type 0} → Dict V → Type 0
Unique [] = Unit
Unique ((k, v) ∷ m) = (lookup k m ≡ none) × Unique m

-- A map with the entries of two.
abbrev pub Joined : {V : Type 0} → Dict V → Dict V → Dict V → Type 0
Joined {V} d m out =
    (k : Text) (v : V) → (lookup k out ≡ some v) ↔ ((lookup k d ≡ some v) ⊎ (lookup k m ≡ some v))

-- Two maps that differ at a key.
abbrev pub Differ : {V : Type 0} → Dict V → Dict V → Text → Type 0
Differ {V} d m k = (v : V) × (w : V) × (lookup k d ≡ some v) × (lookup k m ≡ some w) × (v ≢ w)

module _ {V : Type 0} (same : V → V → Bool) (same_iff : (v w : V) → (same v w ≡ true) ↔ (v ≡ w))
    (failed : Text → MergeError) where
  agrees_cases :
      (v : V) (o : Option V)
      → ((agrees same v o ≡ true) × ((w : V) → o ≡ some w → w ≡ v))
        ⊎ ((agrees same v o ≡ false) × (w : V) × (o ≡ some w) × (v ≢ w))
  agrees_cases v none = inl (refl, λ w h. cc)
  agrees_cases v (some w) = elim (Bool-cases (same w v)) [
    | inl e ↦ inl (e, λ x h. cc (h, (same_iff w v).0 e))
    | inr e ↦ inr (e, w, refl, λ q. cc (e, (same_iff w v).1 (sym q)))
  ]

  Joined-first :
      (k : Text) (v : V) (rest m out : Dict V)
      → lookup k rest ≡ none
      → ((w : V) → lookup k m ≡ some w → w ≡ v)
      → Joined rest (insert k v m) out
      → Joined ((k, v) ∷ rest) m out
  Joined-first k v rest m out new agree j i x = elim (Bool-cases (text_eq k i)) [
    | inl e ↦
        let q : k ≡ i = (text_eq_iff k i).0 e in
        let none_there : lookup i rest ≡ none = ap (λ y. lookup y rest) (sym q) ∙ new in
        let inserted : lookup i (insert k v m) ≡ some v = lookup-insert m k v i ∙ rw e refl in
        rw e (
          λ h. inl (elim ((j i x).0 h) [ inl a ↦ cc (a, none_there) | inr b ↦ sym inserted ∙ b ]),
          λ h. (j i x).1 (
              inr (
                inserted ∙ elim h [
                  | inl a ↦ a
                  | inr b ↦ ap some (sym (agree x (ap (λ y. lookup y m) q ∙ b)))
                ])),
        )
    | inr e ↦
        let inserted : lookup i (insert k v m) ≡ lookup i m = lookup-insert m k v i ∙ rw e refl in
        rw e (
          λ h. ⊎_elim inl (λ b. inr (sym inserted ∙ b)) ((j i x).0 h),
          λ h. (j i x).1 (⊎_elim inl (λ b. inr (inserted ∙ b)) h),
        )
  ]

  Differ-first :
      (k : Text) (v : V) (rest m : Dict V) (i : Text)
      → lookup k rest ≡ none
      → Differ rest (insert k v m) i
      → Differ ((k, v) ∷ rest) m i
  Differ-first k v rest m i new (x, w, a, b, n) = elim (Bool-cases (text_eq k i)) [
    | inl e ↦ cc (a, new, ap (λ y. lookup y rest) ((text_eq_iff k i).0 e))
    | inr e ↦ (x, w, rw e a, sym (lookup-insert m k v i ∙ rw e refl) ∙ b, n)
  ]

  add_entries_cases :
      (d m : Dict V)
      → Unique d
      → ((out : Dict V) × (add_entries same failed d m ≡ ok out) × Joined d m out)
        ⊎ ((k : Text) × (add_entries same failed d m ≡ err (failed k)) × Differ d m k)
  unfolding add_entries
  add_entries_cases [] m u = inl (m, refl, λ k v. (inr, λ h. elim h [ inl a ↦ cc (a) | inr b ↦ b ]))
  add_entries_cases ((k, v) ∷ rest) m (new, u) = elim (agrees_cases v (lookup k m)) [
    | inl (e, agree) ↦ elim (add_entries_cases rest (insert k v m) u) [
      | inl (out, h, j) ↦ inl (out, rw e h, Joined-first k v rest m out new agree j)
      | inr (i, h, n) ↦ inr (i, rw e h, Differ-first k v rest m i new n)
    ]
    | inr (e, w, found, n) ↦ inr (k, rw e refl, (v, w, rw (text_eq_refl k) refl, found, n))
  ]

-- Where no configuration has a key twice, the merged one has the patterns and the files of both and
-- no others, or the two differ at the pattern or the file that the error names.
pub merge_embed_cfg_cases :
    (a b : EmbedCfg)
    → Unique a.patterns
    → Unique a.files
    → Unique b.patterns
    → Unique b.files
    → ((c : EmbedCfg) × (merge_embed_cfg (some a) (some b) ≡ ok (some c))
        × Joined b.patterns a.patterns c.patterns
        × Joined b.files a.files c.files)
      ⊎ ((k : Text) × (merge_embed_cfg (some a) (some b) ≡ err (inconsistent_pattern k))
          × Differ b.patterns a.patterns k)
      ⊎ ((k : Text) × (merge_embed_cfg (some a) (some b) ≡ err (inconsistent_file k))
          × Differ b.files a.files k)
unfolding merge_embed_cfg add_cfg
merge_embed_cfg_cases a b ap_u af_u bp_u bf_u =
    elim (add_entries_cases slice_equal slice_equal_iff inconsistent_pattern a.patterns [] ap_u) [
      | inr (k, _, (_, _, _, h, _)) ↦ cc (h)
      | inl (p, p_ok, p_joined) ↦
          elim (add_entries_cases text_eq text_eq_iff inconsistent_file a.files [] af_u) [
            | inr (k, _, (_, _, _, h, _)) ↦ cc (h)
            | inl (f, f_ok, f_joined) ↦
                let same_p : (k : Text) (v : List Text)
                    → (lookup k p ≡ some v) ↔ (lookup k a.patterns ≡ some v) =
                  same a.patterns p p_joined in
                let same_f : (k : Text) (v : Text)
                    → (lookup k f ≡ some v) ↔ (lookup k a.files ≡ some v) =
                  same a.files f f_joined in
                elim (add_entries_cases slice_equal slice_equal_iff inconsistent_pattern b.patterns
                  p bp_u) [
                    | inr (k, h, n) ↦ inr (
                        inl
                          (k, rw (p_ok, f_ok, h) refl, differs b.patterns p a.patterns k same_p n))
                    | inl (p', h, j) ↦
                        elim (add_entries_cases text_eq text_eq_iff inconsistent_file b.files f
                          bf_u) [
                            | inr (k, g, n) ↦ inr (
                                inr (
                                  k,
                                  rw (p_ok, f_ok, h, g) refl,
                                  differs b.files f a.files k same_f n,
                                ))
                            | inl (f', g, i) ↦ inl (
                              record { patterns = p'; files = f' },
                              rw (p_ok, f_ok, h, g) refl,
                              joins b.patterns p a.patterns p' same_p j,
                              joins b.files f a.files f' same_f i,
                            )
                          ]
                  ]
          ]
    ]
  where
    same :
        {V : Type 0} (d out : Dict V)
        → Joined d [] out
        → (k : Text) (v : V) → (lookup k out ≡ some v) ↔ (lookup k d ≡ some v)
    same d out j k v =
        (λ h. elim ((j k v).0 h) [ inl x ↦ x | inr y ↦ cc (y) ], λ h. (j k v).1 (inl h))

    joins :
        {V : Type 0} (d m m' out : Dict V)
        → ((k : Text) (v : V) → (lookup k m ≡ some v) ↔ (lookup k m' ≡ some v))
        → Joined d m out
        → Joined d m' out
    joins d m m' out s j k v = (
      λ h. ⊎_elim inl (λ x. inr ((s k v).0 x)) ((j k v).0 h),
      λ h. (j k v).1 (⊎_elim inl (λ x. inr ((s k v).1 x)) h),
    )

    differs :
        {V : Type 0} (d m m' : Dict V) (k : Text)
        → ((k : Text) (v : V) → (lookup k m ≡ some v) ↔ (lookup k m' ≡ some v))
        → Differ d m k
        → Differ d m' k
    differs d m m' k s (v, w, x, y, n) = (v, w, x, (s k w).0 y, n)
