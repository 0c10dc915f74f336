-- ===== src/Toolchain/Version.antt =====
-- LangVersion and findGoVersion.
use go2nix.Base.{
  List, [], ◌∷◌, ◌++◌, ◌≡◌, refl, sym, subst, ap, ◌∙◌, ◌||◌, Option-cases, Option, none, some, inl,
  inr, Bool-cases, Bool, false, Text, codes, cut, contains, ◌==◌, arith,
}

abbrev pub before_dot : Text → Option (Text × Text) → Text
before_dot s none = s
before_dot s (some (before, _)) = before

abbrev pub major_minor : Text → Option (Text × Text) → Text
major_minor v none = v
major_minor v (some (major, rest)) = major ++ (codes "." ++ before_dot rest (cut rest b'.'))

unfoldable pub lang_version : Text → Text
lang_version v = major_minor v (cut v b'.')

-- What findGoVersion finds in a directory: nothing, or a go.mod with the version of its go
-- directive, `none` where it has none or cannot be parsed.
pub data ModFile : Type 0 where
  absent : ModFile
  go_mod : Option Text → ModFile

-- The loop over a directory and those above it.
unfoldable pub find_go_version : List ModFile → Text
unfolding lang_version
find_go_version [] = []
find_go_version (absent ∷ parents) = find_go_version parents
find_go_version (go_mod none ∷ parents) = codes "1.16"
find_go_version (go_mod (some version) ∷ parents) = lang_version version

or-eq-false : (a b : Bool) → (a || b) ≡ false → (a ≡ false) × (b ≡ false)
or-eq-false a b h = ground arith

cut-none : (s : Text) → contains s b'.' ≡ false → cut s b'.' ≡ none
cut-none [] h = refl
cut-none (c ∷ s) h =
    let (other, later) = or-eq-false (c == b'.') (contains s b'.') h in
    rw (other, cut-none s later) refl

cut_at :
    (s rest : Text) → contains s b'.' ≡ false → cut (s ++ (codes "." ++ rest)) b'.' ≡ some (s, rest)
cut_at [] rest h = refl
cut_at (c ∷ s) rest h =
    let (other, later) = or-eq-false (c == b'.') (contains s b'.') h in
    rw (other, cut_at s rest later) refl

cut_sound : (s a b : Text) → cut s b'.' ≡ some (a, b) → contains a b'.' ≡ false
cut_sound [] a b h = cc
cut_sound (c ∷ s) a b h = elim (Bool-cases (c == b'.')) [
  | inl e ↦
      let same : some ([], s) ≡ some (a, b) = rw e at h in
      ap (λ x. contains (before_dot [] x) b'.') (sym same)
  | inr e ↦ elim (Option-cases (cut s b'.')) [
    | inl n ↦ cc (rw (e, n) at h)
    | inr ((a', b'), n) ↦
        let same : some (c ∷ a', b') ≡ some (a, b) = rw (e, n) at h in
        ap (λ x. contains (before_dot [] x) b'.') (sym same) ∙ rw e (cut_sound s a' b' n)
  ]
]

cut-none_plain : (s : Text) → cut s b'.' ≡ none → contains s b'.' ≡ false
cut-none_plain [] h = refl
cut-none_plain (c ∷ s) h = elim (Bool-cases (c == b'.')) [
  | inl e ↦ cc (rw e at h)
  | inr e ↦ elim (Option-cases (cut s b'.')) [
    | inl n ↦ rw e (cut-none_plain s n)
    | inr (pair, n) ↦ cc (rw (e, n) at h)
  ]
]

before_dot_plain : (s : Text) → contains (before_dot s (cut s b'.')) b'.' ≡ false
before_dot_plain s = elim (Option-cases (cut s b'.')) [
  | inl n ↦ rw n (cut-none_plain s n)
  | inr ((a, b), n) ↦ rw n (cut_sound s a b n)
]

-- The version of a release, or of a patch release of it, behind which anything may stand.
lang_version_release :
    (major minor : Text)
    → contains major b'.' ≡ false
    → contains minor b'.' ≡ false
    → lang_version (major ++ (codes "." ++ minor)) ≡ major ++ (codes "." ++ minor)
unfolding lang_version
lang_version_release major minor h k =
    ap (major_minor (major ++ (codes "." ++ minor))) (cut_at major minor h)
    ∙ ap (λ c. major ++ (codes "." ++ before_dot minor c)) (cut-none minor k)

lang_version_patch :
    (major minor patch : Text)
    → contains major b'.' ≡ false
    → contains minor b'.' ≡ false
    → lang_version (major ++ (codes "." ++ (minor ++ (codes "." ++ patch))))
      ≡ major ++ (codes "." ++ minor)
unfolding lang_version
lang_version_patch major minor patch h k =
    let rest = minor ++ (codes "." ++ patch) in
    ap (major_minor (major ++ (codes "." ++ rest))) (cut_at major rest h)
    ∙ ap (λ c. major ++ (codes "." ++ before_dot rest c)) (cut_at minor patch k)

lang_version_twice : (v : Text) → lang_version (lang_version v) ≡ lang_version v
unfolding lang_version
lang_version_twice v = elim (Option-cases (cut v b'.')) [
  | inl n ↦ ap lang_version (ap (major_minor v) n)
  | inr ((major, rest), n) ↦
      subst (λ x. lang_version x ≡ x) (sym (ap (major_minor v) n))
        (lang_version_release major (before_dot rest (cut rest b'.')) (cut_sound v major rest n)
          (before_dot_plain rest))
]

-- The language version of a patch release is that of its release, and taking it twice changes
-- nothing. The version that a package gets is that of a go.mod above it, or 1.16, or none, and is
-- its own language version.
pub lang_version_lang :
    (major minor patch v : Text) (dirs : List ModFile)
    → contains major b'.' ≡ false
    → contains minor b'.' ≡ false
    → (lang_version (major ++ (codes "." ++ (minor ++ (codes "." ++ patch))))
        ≡ lang_version (major ++ (codes "." ++ minor)))
      × (lang_version (lang_version v) ≡ lang_version v)
      × (lang_version (find_go_version dirs) ≡ find_go_version dirs)
unfolding find_go_version
lang_version_lang major minor patch v dirs h k = (
  lang_version_patch major minor patch h k ∙ sym (lang_version_release major minor h k),
  lang_version_twice v,
  found dirs,
)
  where
    found : (dirs : List ModFile) → lang_version (find_go_version dirs) ≡ find_go_version dirs
    found [] = refl
    found (absent ∷ parents) = found parents
    found (go_mod none ∷ parents) = refl
    found (go_mod (some version) ∷ parents) = lang_version_twice version
