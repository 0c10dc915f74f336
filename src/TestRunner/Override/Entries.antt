-- ===== src/TestRunner/Override/Entries.antt =====
-- The entries of an importcfg before and after one is overridden.
use go2nix.Base.{
  ℕ, List, [], ◌∷◌, ◌++◌, ◌≡◌, ◌≢◌, refl, sym, ap, subst, ◌∙◌, append_assoc, append-nil, inl, inr,
  true, false, ◌||◌, Bool-cases, Text, codes, contains, has_prefix, has_prefix-append,
  has_prefix_split, All, All-append, arith, if◌then◌else◌,
}
use mathlib.Core.List.{append_cancel_left}
use go2nix.Importcfg.{raw_lines, scan_lines}
use go2nix.Importcfg.Lines.{Without, Clean, write_lines, scan_lines-Clean, raw_lines-write_lines}
use go2nix.Resolver.Config.{join}
use go2nix.TestRunner.Override.{entry_prefix, entry, other_lines, override_entry}

-- A content whose lines have no carriage return.
abbrev pub PlainContent : Text → Type 0
PlainContent content = All Clean (raw_lines content)

-- An import path as it may stand in an entry.
abbrev pub Plain : Text → Type 0
Plain s = Clean s × Without b'=' s

contains-append : (a b : Text) (c : ℕ) → contains (a ++ b) c ≡ (contains a c || contains b c)
contains-append [] b c = refl
contains-append (x ∷ a) b c = ground (arith, contains-append a b c)

pub Clean-append : (a b : Text) → Clean a → Clean b → Clean (a ++ b)
Clean-append a b (m, n) (o, p) =
    (contains-append a b 10 ∙ rw (m, o) refl, contains-append a b 13 ∙ rw (n, p) refl)

pub Plain-append : (a b : Text) → Plain a → Plain b → Plain (a ++ b)
Plain-append a b (h, m) (k, n) = (Clean-append a b h k, contains-append a b b'=' ∙ rw (m, n) refl)

entry-Clean :
    (import_path archive : Text)
    → Clean import_path
    → Clean archive
    → Clean (entry import_path archive)
entry-Clean import_path archive h k =
    Clean-append (entry_prefix import_path) archive
      (Clean-append (codes "packagefile ") (import_path ++ codes "=") (refl, refl)
        (Clean-append import_path (codes "=") h (refl, refl)))
      k

other_lines-Clean :
    (import_path : Text) (ls : List Text) → All Clean ls → All Clean (other_lines import_path ls)
unfolding other_lines
other_lines-Clean import_path [] h = tt
other_lines-Clean import_path (line ∷ rest) (l, h) =
    elim (Bool-cases (has_prefix line (entry_prefix import_path))) [
      | inl e ↦ rw e (other_lines-Clean import_path rest h)
      | inr e ↦ rw e (l, other_lines-Clean import_path rest h)
    ]

join-write_lines :
    (line : Text) (ls : List Text)
    → join (line ∷ ls) (10 ∷ []) ++ (10 ∷ []) ≡ write_lines (line ∷ ls)
join-write_lines line [] = refl
join-write_lines line (next ∷ rest) =
    append_assoc line (10 ∷ join (next ∷ rest) (10 ∷ [])) (10 ∷ [])
    ∙ ap (λ x. line ++ (10 ∷ x)) (join-write_lines next rest)

join_snoc :
    (ls : List Text) (line : Text)
    → join (ls ++ line ∷ []) (10 ∷ []) ++ (10 ∷ []) ≡ write_lines (ls ++ line ∷ [])
join_snoc [] line = join-write_lines line []
join_snoc (first ∷ ls) line = join-write_lines first (ls ++ line ∷ [])

-- The lines of the new content, which is plain again.
pub override_entry_lem :
    (import_path archive content : Text)
    → Clean import_path
    → Clean archive
    → PlainContent content
    → (scan_lines (raw_lines (override_entry import_path archive content))
        ≡ other_lines import_path (scan_lines (raw_lines content))
          ++ entry import_path archive ∷ [])
      × PlainContent (override_entry import_path archive content)
unfolding override_entry
override_entry_lem import_path archive content h k plain =
    let kept = other_lines import_path (scan_lines (raw_lines content)) in
    let clean : All Clean (kept ++ entry import_path archive ∷ []) =
      All-append Clean kept (entry import_path archive ∷ [])
        (other_lines-Clean import_path (scan_lines (raw_lines content))
          (subst (All Clean) (sym (scan_lines-Clean (raw_lines content) plain)) plain))
        (entry-Clean import_path archive h k, tt) in
    let lines : raw_lines (join (kept ++ entry import_path archive ∷ []) (10 ∷ []) ++ (10 ∷ []))
        ≡ kept ++ entry import_path archive ∷ [] =
      ap raw_lines (join_snoc kept (entry import_path archive))
      ∙ raw_lines-write_lines (kept ++ entry import_path archive ∷ []) clean in
    (
      ap scan_lines lines ∙ scan_lines-Clean (kept ++ entry import_path archive ∷ []) clean,
      subst (All Clean) (sym lines) clean,
    )

-- The entries for an import path among lines.
abbrev pub own_lines : Text → List Text → List Text
own_lines import_path [] = []
own_lines import_path (line ∷ rest) =
    if has_prefix line (entry_prefix import_path)
    then line ∷ own_lines import_path rest
    else own_lines import_path rest

own_lines-append :
    (d : Text) (a b : List Text) → own_lines d (a ++ b) ≡ own_lines d a ++ own_lines d b
own_lines-append d [] b = refl
own_lines-append d (line ∷ a) b = elim (Bool-cases (has_prefix line (entry_prefix d))) [
  | inl e ↦ rw e (ap (λ x. line ∷ x) (own_lines-append d a b))
  | inr e ↦ rw e (own_lines-append d a b)
]

own_lines-other_lines : (d : Text) (ls : List Text) → own_lines d (other_lines d ls) ≡ []
unfolding other_lines
own_lines-other_lines d [] = refl
own_lines-other_lines d (line ∷ rest) = elim (Bool-cases (has_prefix line (entry_prefix d))) [
  | inl e ↦ rw e (own_lines-other_lines d rest)
  | inr e ↦ rw e (rw e (own_lines-other_lines d rest))
]

before_equals :
    (a b t u : Text) → Without b'=' a → Without b'=' b → a ++ (b'=' ∷ t) ≡ b ++ (b'=' ∷ u) → a ≡ b
before_equals [] [] t u h k q = refl
before_equals [] (y ∷ b) t u h k q = ground arith
before_equals (x ∷ a) [] t u h k q = ground arith
before_equals (x ∷ a) (y ∷ b) t u h k q =
    let e : x ≡ y = cc in
    let ih : a ≡ b = before_equals a b t u (ground arith) (ground arith) cc in cc (e, ih)

prefix_apart :
    (a b s : Text)
    → Without b'=' a
    → Without b'=' b
    → has_prefix s (entry_prefix a) ≡ true
    → has_prefix s (entry_prefix b) ≡ true
    → a ≡ b
prefix_apart a b s h k p q =
    let (t, e) = has_prefix_split s (entry_prefix a) p in
    let (u, f) = has_prefix_split s (entry_prefix b) q in
    before_equals a b t u h k (
      append_cancel_left (codes "packagefile ") (a ++ (b'=' ∷ t)) (b ++ (b'=' ∷ u))
        (sym (shape a t) ∙ sym e ∙ f ∙ shape b u))
  where
    shape : (x y : Text) → entry_prefix x ++ y ≡ codes "packagefile " ++ (x ++ (b'=' ∷ y))
    shape x y =
        append_assoc (codes "packagefile ") (x ++ codes "=") y
        ∙ ap (λ z. codes "packagefile " ++ z) (append_assoc x (codes "=") y)

has_prefix-other :
    (d j s : Text)
    → Without b'=' d
    → Without b'=' j
    → d ≢ j
    → has_prefix s (entry_prefix j) ≡ true
    → has_prefix s (entry_prefix d) ≡ false
has_prefix-other d j s h k n p = elim (Bool-cases (has_prefix s (entry_prefix d))) [
  | inl q ↦ absurd (n (prefix_apart d j s h k q p))
  | inr q ↦ q
]

own_lines-other_lines_apart :
    (d j : Text) (ls : List Text)
    → Without b'=' d
    → Without b'=' j
    → d ≢ j
    → own_lines d (other_lines j ls) ≡ own_lines d ls
unfolding other_lines
own_lines-other_lines_apart d j [] h k n = refl
own_lines-other_lines_apart d j (line ∷ rest) h k n =
    let ih = own_lines-other_lines_apart d j rest h k n in
    elim (Bool-cases (has_prefix line (entry_prefix j))) [
      | inl p ↦ rw (p, has_prefix-other d j line h k n p) ih
      | inr p ↦ elim (Bool-cases (has_prefix line (entry_prefix d))) [
        | inl q ↦ rw (p, q) (ap (λ x. line ∷ x) ih)
        | inr q ↦ rw (p, q) ih
      ]
    ]

-- The entries for an import path in a content.
abbrev pub entries_for : Text → Text → List Text
entries_for import_path content = own_lines import_path (scan_lines (raw_lines content))

pub entries_overridden :
    (import_path archive content : Text)
    → Clean import_path
    → Clean archive
    → PlainContent content
    → entries_for import_path (override_entry import_path archive content)
      ≡ entry import_path archive ∷ []
entries_overridden import_path archive content h k plain =
    ap (own_lines import_path) (override_entry_lem import_path archive content h k plain).0
    ∙ own_lines-append import_path (other_lines import_path (scan_lines (raw_lines content)))
        (entry import_path archive ∷ [])
    ∙ rw
        (
          own_lines-other_lines import_path (scan_lines (raw_lines content)),
          has_prefix-append (entry_prefix import_path) archive,
        )
        refl

pub entries_kept :
    (d import_path archive content : Text)
    → Plain import_path
    → Without b'=' d
    → Clean archive
    → PlainContent content
    → d ≢ import_path
    → entries_for d (override_entry import_path archive content) ≡ entries_for d content
entries_kept d import_path archive content (h, no_equals) k a plain n =
    ap (own_lines d) (override_entry_lem import_path archive content h a plain).0
    ∙ own_lines-append d (other_lines import_path (scan_lines (raw_lines content)))
        (entry import_path archive ∷ [])
    ∙ rw
        (
          own_lines-other_lines_apart d import_path (scan_lines (raw_lines content)) k no_equals n,
          has_prefix-other d import_path (entry import_path archive) k no_equals n
              (has_prefix-append (entry_prefix import_path) archive),
        )
        (append-nil (own_lines d (scan_lines (raw_lines content))))
