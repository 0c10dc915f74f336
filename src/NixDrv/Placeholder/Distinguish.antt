-- ===== src/NixDrv/Placeholder/Distinguish.antt =====
-- The texts that placeholders hash tell outputs and derivations apart.
use go2nix.Base.{
  ℕ, List, [], ◌∷◌, ◌++◌, ◌≡◌, ◌≢◌, refl, sym, ap, ◌∙◌, ◌↔◌, inl, inr, false, some, Option-cases,
  Text, codes, text_eq, text_eq_refl, Text-cases, cut_suffix, ok_of_bind, ok, length, length-append,
  arith,
}
use go2nix.NixDrv.Placeholder.{
  StorePath, drv_name, output_path_name, hash_part, clear_text, ca_output,
}

append_cancel : (a b c : Text) → a ++ b ≡ a ++ c → b ≡ c
append_cancel [] b c e = e
append_cancel (x ∷ a) b c e = append_cancel a b c cc

append_split : (a b c d : Text) → length a ≡ length b → a ++ c ≡ b ++ d → (a ≡ b) × (c ≡ d)
append_split [] [] c d l e = (refl, e)
append_split [] (y ∷ b) c d l e = absurd (omega (arith, l))
append_split (x ∷ a) [] c d l e = absurd (omega (arith, l))
append_split (x ∷ a) (y ∷ b) c d l e =
    let (p, q) = append_split a b c d (omega (arith, l)) cc in
    let head : x ≡ y = cc in (ap (λ t. x ∷ t) p ∙ ap (λ h. h ∷ b) head, q)

cut_suffix_self : (s : Text) → cut_suffix s s ≡ some []
cut_suffix_self [] = refl
cut_suffix_self (x ∷ s) = rw (text_eq_refl (x ∷ s)) refl

whole_suffix :
    (s suffix rest : Text) → s ≡ suffix → cut_suffix s suffix ≡ some rest → s ≡ rest ++ suffix
whole_suffix s suffix rest e h =
    let found : some [] ≡ some rest = sym (cut_suffix_self s) ∙ ap (cut_suffix s) e ∙ h in
    let nothing_left : [] ≡ rest = cc in e ∙ ap (λ t. t ++ suffix) nothing_left

-- `cut_suffix` finds the suffix exactly where it stands.
cut_suffix_sound : (s suffix rest : Text) → cut_suffix s suffix ≡ some rest → s ≡ rest ++ suffix
cut_suffix_sound [] suffix rest h = elim (Text-cases [] suffix) [
  | inl e ↦ whole_suffix [] suffix rest e h
  | inr e ↦ cc (rw e at h)
]
cut_suffix_sound (x ∷ s) suffix rest h = elim (Text-cases (x ∷ s) suffix) [
  | inl e ↦ whole_suffix (x ∷ s) suffix rest e h
  | inr e ↦ elim (Option-cases (cut_suffix s suffix)) [
    | inl n ↦ cc (rw (e, n) at h)
    | inr (t, n) ↦
        let ih = cut_suffix_sound s suffix t n in
        let same : some (x ∷ t) ≡ some rest = rw (e, n) at h in
        let front : x ∷ t ≡ rest = cc in ap (λ r. x ∷ r) ih ∙ ap (λ r. r ++ suffix) front
  ]
]

cut_suffix_complete : (rest suffix : Text) → cut_suffix (rest ++ suffix) suffix ≡ some rest
cut_suffix_complete [] [] = refl
cut_suffix_complete [] (y ∷ suffix) = rw (text_eq_refl (y ∷ suffix)) refl
cut_suffix_complete (x ∷ rest) suffix = elim (Text-cases (x ∷ (rest ++ suffix)) suffix) [
  | inl e ↦ absurd (omega (arith, length-append rest suffix, ap length e))
  | inr e ↦ rw (e, cut_suffix_complete rest suffix) refl
]

-- The path of a derivation is one whose name ends in .drv, and the rest of it is its name.
pub drv_name_iff :
    (sp : StorePath) (name : Text) → (drv_name sp ≡ ok name) ↔ (sp.name ≡ name ++ codes ".drv")
unfolding drv_name
drv_name_iff sp name = (
  λ h. elim (Option-cases (cut_suffix sp.name (codes ".drv"))) [
    | inl n ↦ cc (rw (n, drv_name) at h)
    | inr (t, n) ↦
        let same : ok t ≡ ok name = rw (n, drv_name) at h in
        let found : t ≡ name = cc in
        cut_suffix_sound sp.name (codes ".drv") name (n ∙ ap some found)
  ],
  λ e.
      rw
        (
          ap (λ t. cut_suffix t (codes ".drv")) e ∙ cut_suffix_complete name (codes ".drv"),
          drv_name,
        )
        refl,
)

output_path_name_other :
    (drv a : Text)
    → text_eq a (codes "out") ≡ false
    → output_path_name drv a ≡ drv ++ (codes "-" ++ a)
unfolding output_path_name
output_path_name_other drv a e = rw e refl

output_path_name_out : (drv : Text) → output_path_name drv (codes "out") ≡ drv
unfolding output_path_name
output_path_name_out drv = refl

longer : (drv a : Text) → drv ++ (codes "-" ++ a) ≢ drv
longer drv a e = omega (arith, length-append drv (codes "-" ++ a), ap length e)

output_path_name_cancel : (drv a b : Text) → output_path_name drv a ≡ output_path_name drv b → a ≡ b
unfolding output_path_name
output_path_name_cancel drv a b e = elim (Text-cases a (codes "out")) [
  | inl p ↦ elim (Text-cases b (codes "out")) [
    | inl q ↦ p ∙ sym q
    | inr q ↦
        absurd (
          longer drv b (sym (output_path_name_other drv b q) ∙ sym e ∙ ap (output_path_name drv) p))
  ]
  | inr p ↦ elim (Text-cases b (codes "out")) [
    | inl q ↦
        absurd
          (longer drv a (sym (output_path_name_other drv a p) ∙ e ∙ ap (output_path_name drv) q))
    | inr q ↦ append_cancel (codes "-") a b (
        append_cancel drv _ _
          (sym (output_path_name_other drv a p) ∙ e ∙ output_path_name_other drv b q))
  ]
]

module _ (sha256 : Text → List ℕ) (nixbase32 : List ℕ → Text) where
  -- The placeholder of an output is made exactly for a path whose name is that of a derivation with
  -- .drv behind it, and is then the hash of the text for that derivation and output.
  pub ca_output_iff :
      (p : StorePath) (output : Text) (h : List ℕ)
      → (ca_output sha256 nixbase32 p output ≡ ok h) ↔ (
          (drv : Text) × (p.name ≡ drv ++ codes ".drv")
          × (h ≡ sha256 (clear_text sha256 nixbase32 p drv output)))
  unfolding ca_output
  ca_output_iff p output h = (
    λ e.
        let record { value = drv; came = c; went = w } = ok_of_bind _ (drv_name p) e in
        (drv, (drv_name_iff p drv).0 c, cc),
    λ (drv, n, same). rw ((drv_name_iff p drv).1 n) (ap ok (sym same)),
  )

  -- Where the hash parts of two paths are of one length, the texts for outputs of two derivations
  -- are the same only if the hash parts and the path names of the outputs are the same, and, for
  -- derivations of one name, only for the same output.
  pub clear_text_distinguish :
      (p q : StorePath) (drv drv' a b : Text)
      → length (hash_part sha256 nixbase32 p) ≡ length (hash_part sha256 nixbase32 q)
      → clear_text sha256 nixbase32 p drv a ≡ clear_text sha256 nixbase32 q drv' b
      → (hash_part sha256 nixbase32 p ≡ hash_part sha256 nixbase32 q)
        × (output_path_name drv a ≡ output_path_name drv' b)
        × (drv ≡ drv' → a ≡ b)
  unfolding clear_text
  clear_text_distinguish p q drv drv' a b even e =
      let (hashes, names) =
        append_split (hash_part sha256 nixbase32 p) (hash_part sha256 nixbase32 q) _ _ even
          (append_cancel (codes "nix-upstream-output:") _ _ e) in
      let outputs =
        append_cancel (codes ":") (output_path_name drv a) (output_path_name drv' b) names in
      (
        hashes,
        outputs,
        λ same.
            output_path_name_cancel drv a b (outputs ∙ ap (λ d. output_path_name d b) (sym same)),
      )
