-- ===== src/Importcfg/Lines.antt =====
-- The scanning of lines that are written.
use go2nix.Base.{
  ℕ, List, [], ◌∷◌, ◌++◌, ◌≡◌, refl, ap, ◌∙◌, inl, inr, Bool, true, false, ◌||◌, Bool-cases, Text,
  contains, cons_head, ◌==◌, All, arith,
}
use go2nix.Importcfg.{raw_lines, drop_cr, scan_lines}

-- A text without the character.
abbrev pub Without : ℕ → Text → Type 0
Without c s = contains s c ≡ false

abbrev pub Clean : Text → Type 0
Clean l = Without 10 l × Without 13 l

abbrev pub write_lines : List Text → Text
write_lines [] = []
write_lines (line ∷ rest) = line ++ (10 ∷ write_lines rest)

raw_lines-append :
    (line s : Text) → Without 10 line → raw_lines (line ++ (10 ∷ s)) ≡ line ∷ raw_lines s
unfolding raw_lines
raw_lines-append [] s h = refl
raw_lines-append (c ∷ line) s h = ground (arith, raw_lines-append line s)

cons_head-Without :
    (c x : ℕ) (lines : List Text)
    → (x == c) ≡ false
    → All (Without c) lines
    → All (Without c) (cons_head x lines)
cons_head-Without c x [] e h = rw e (refl, tt)
cons_head-Without c x (line ∷ lines) e (l, h) = rw e (l, h)

or-eq-false : (a b : Bool) → (a || b) ≡ false → (a ≡ false) × (b ≡ false)
or-eq-false true b h = cc
or-eq-false false b h = (refl, h)

raw_lines-Without : (c : ℕ) (s : Text) → Without c s → All (Without c) (raw_lines s)
unfolding raw_lines
raw_lines-Without c [] h = tt
raw_lines-Without c (x ∷ s) h =
    let (e, h') = or-eq-false (x == c) (contains s c) h in
    let ih = raw_lines-Without c s h' in
    elim (Bool-cases (x == 10)) [
      | inl q ↦ rw q (refl, ih)
      | inr q ↦ rw q (cons_head-Without c x (raw_lines s) e ih)
    ]

raw_lines-no_newline : (s : Text) → All (Without 10) (raw_lines s)
unfolding raw_lines
raw_lines-no_newline [] = tt
raw_lines-no_newline (x ∷ s) = elim (Bool-cases (x == 10)) [
  | inl q ↦ rw q (refl, raw_lines-no_newline s)
  | inr q ↦ rw q (cons_head-Without 10 x (raw_lines s) q (raw_lines-no_newline s))
]

pub raw_lines-Clean : (s : Text) → Without 13 s → All Clean (raw_lines s)
unfolding raw_lines
raw_lines-Clean s h = both (raw_lines s) (raw_lines-no_newline s) (raw_lines-Without 13 s h)
  where
    both : (ls : List Text) → All (Without 10) ls → All (Without 13) ls → All Clean ls
    both [] a b = tt
    both (l ∷ ls) (a, h1) (b, h2) = ((a, b), both ls h1 h2)

drop_cr-Without : (l : Text) → Without 13 l → drop_cr l ≡ l
unfolding drop_cr
drop_cr-Without [] h = refl
drop_cr-Without (c ∷ []) h = ground arith
drop_cr-Without (c ∷ d ∷ s) h =
    let (e, h') = or-eq-false (c == 13) (contains (d ∷ s) 13) h in
    ap (λ x. c ∷ x) (drop_cr-Without (d ∷ s) h')

pub scan_lines-Clean : (ls : List Text) → All Clean ls → scan_lines ls ≡ ls
unfolding scan_lines
scan_lines-Clean [] h = refl
scan_lines-Clean (l ∷ ls) ((_, no_cr), h) =
    rw (drop_cr-Without l no_cr) (ap (λ x. l ∷ x) (scan_lines-Clean ls h))

pub raw_lines-write_lines : (ls : List Text) → All Clean ls → raw_lines (write_lines ls) ≡ ls
unfolding raw_lines
raw_lines-write_lines [] h = refl
raw_lines-write_lines (l ∷ ls) ((no_newline, _), h) =
    raw_lines-append l (write_lines ls) no_newline ∙ ap (λ x. l ∷ x) (raw_lines-write_lines ls h)
