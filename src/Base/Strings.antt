-- ===== src/Base/Strings.antt =====
-- Go strings, as the lists of their code points, and the functions of `strings` and `sort` that
-- the code calls. Code points sort as the bytes of their UTF-8 encodings do.
use Prim.Native.Char.{code}
use Prim.Native.String.{String}
use Prim.Native.Nat.{ℕ, compare, Ordering}
use mathlib.Core.Path.{◌≡◌, refl, sym, subst}
use mathlib.Core.Logic.{◌⊎◌, inl, inr, ◌↔◌}
use mathlib.Core.Bool.{Bool, true, false, ◌&&◌, ◌||◌}
use mathlib.Core.Option.{Option, none, some}
use mathlib.Core.List.{List, [], ◌∷◌, ◌++◌, Memᴰ}
use native.Mathlib.Omega.{arith}
use go2nix.Base.Tests.{◌==◌, if◌then◌else◌, Bool-cases, ==_iff, and-eq-true}
use go2nix.Base.Lists.{Memᴰ-cons, any, any-Memᴰ}

abbrev pub Text : Type 0
Text = List ℕ

-- The code points of a literal.
abbrev pub codes : String → Text
codes String.[] = []
codes (String.◌∷◌ c s) = code c ∷ codes s

-- `a == b`
abbrev pub text_eq : Text → Text → Bool
text_eq [] [] = true
text_eq [] (y ∷ ys) = false
text_eq (x ∷ xs) [] = false
text_eq (x ∷ xs) (y ∷ ys) = (x == y) && text_eq xs ys

-- `a <= b`
abbrev pub text_leb : Text → Text → Bool
text_leb [] ys = true
text_leb (x ∷ xs) [] = false
text_leb (x ∷ xs) (y ∷ ys) = elim (compare x y) [
  | Ordering.lt ↦ true
  | Ordering.gt ↦ false
  | Ordering.eq ↦ text_leb xs ys
]

-- `strings.HasPrefix(s, prefix)`
abbrev pub has_prefix : Text → Text → Bool
has_prefix s [] = true
has_prefix [] (c ∷ p) = false
has_prefix (x ∷ s) (c ∷ p) = (x == c) && has_prefix s p

-- `s[len(prefix):]` where `s` has the prefix, and `none` where it has not.
abbrev pub cut_prefix : Text → Text → Option Text
cut_prefix s [] = some s
cut_prefix [] (c ∷ p) = none
cut_prefix (x ∷ s) (c ∷ p) = let rest = cut_prefix s p in if x == c then rest else none

-- `strings.TrimPrefix(s, prefix)`
abbrev pub trim_prefix : Text → Text → Text
trim_prefix s p = elim (cut_prefix s p) [ none ↦ s | some rest ↦ rest ]

abbrev pub cons_some : ℕ → Option Text → Option Text
cons_some c none = none
cons_some c (some s) = some (c ∷ s)

-- `strings.CutSuffix(s, suffix)`
abbrev pub cut_suffix : Text → Text → Option Text
cut_suffix [] suffix = if text_eq [] suffix then some [] else none
cut_suffix (x ∷ s) suffix =
    let rest = cons_some x (cut_suffix s suffix) in if text_eq (x ∷ s) suffix then some [] else rest

-- `strings.ContainsRune(s, c)`
abbrev pub contains : Text → ℕ → Bool
contains [] c = false
contains (x ∷ s) c = (x == c) || contains s c

-- `strings.Cut(s, sep)` at a separator of one character.
abbrev pub cut : Text → ℕ → Option (Text × Text)
cut [] c = none
cut (x ∷ s) c =
    let rest : Option (Text × Text) = elim (cut s c) [
      | none ↦ none
      | some (a, b) ↦ some (x ∷ a, b)
    ] in
    if x == c then some ([], s) else rest

-- `sort.Strings`
abbrev pub insert_sorted : Text → List Text → List Text
insert_sorted x [] = x ∷ []
insert_sorted x (y ∷ ys) =
    let rest = y ∷ insert_sorted x ys in if text_leb x y then x ∷ y ∷ ys else rest

unfoldable pub sort : List Text → List Text
sort [] = []
sort (x ∷ xs) = insert_sorted x (sort xs)

pub text_eq_iff : (a b : Text) → (text_eq a b ≡ true) ↔ (a ≡ b)
text_eq_iff [] [] = (λ _. refl, λ _. refl)
text_eq_iff [] (y ∷ ys) = (λ h. cc, λ h. cc)
text_eq_iff (x ∷ xs) [] = (λ h. cc, λ h. cc)
text_eq_iff (x ∷ xs) (y ∷ ys) = ground (arith, text_eq_iff xs ys, ==_iff x y)

pub text_eq_refl : (a : Text) → text_eq a a ≡ true
text_eq_refl a = (text_eq_iff a a).1 refl

pub text_eq_comm : (a b : Text) → text_eq a b ≡ text_eq b a
text_eq_comm [] [] = refl
text_eq_comm [] (y ∷ ys) = refl
text_eq_comm (x ∷ xs) [] = refl
text_eq_comm (x ∷ xs) (y ∷ ys) = ground (arith, text_eq_comm xs ys)

pub Text-cases : (a b : Text) → (a ≡ b) ⊎ (text_eq a b ≡ false)
Text-cases a b = elim (Bool-cases (text_eq a b)) [
  | inl e ↦ inl ((text_eq_iff a b).0 e)
  | inr e ↦ inr e
]

pub has_prefix-append : (p s : Text) → has_prefix (p ++ s) p ≡ true
has_prefix-append [] s = refl
has_prefix-append (c ∷ p) s = ground (arith, has_prefix-append p s)

pub has_prefix_split : (s p : Text) → has_prefix s p ≡ true → (t : Text) × (s ≡ p ++ t)
has_prefix_split s [] h = (s, refl)
has_prefix_split [] (c ∷ p) h = cc
has_prefix_split (x ∷ s) (c ∷ p) h =
    let (e, h') = and-eq-true (x == c) (has_prefix s p) h in
    let (t, q) = has_prefix_split s p h' in (t, ground arith)

pub insert_sorted-Memᴰ :
    (a x : Text) (ys : List Text) → Memᴰ a (insert_sorted x ys) ↔ ((a ≡ x) ⊎ Memᴰ a ys)
insert_sorted-Memᴰ a x [] = Memᴰ-cons a x []
insert_sorted-Memᴰ a x (y ∷ ys) = ground (
  arith,
  insert_sorted-Memᴰ a x ys,
  Memᴰ-cons a y ys,
  Memᴰ-cons a x (y ∷ ys),
  Memᴰ-cons a y (insert_sorted x ys),
)

-- Sorting keeps the members.
pub sort-Memᴰ : (a : Text) (xs : List Text) → Memᴰ a (sort xs) ↔ Memᴰ a xs
unfolding sort
sort-Memᴰ a [] = (λ m. m, λ m. m)
sort-Memᴰ a (x ∷ xs) =
    ground (arith, insert_sorted-Memᴰ a x (sort xs), sort-Memᴰ a xs, Memᴰ-cons a x xs)

abbrev pub cons_head : ℕ → List Text → List Text
cons_head c [] = (c ∷ []) ∷ []
cons_head c (part ∷ parts) = (c ∷ part) ∷ parts

-- `strings.Split(s, sep)` at a separator of one character.
abbrev pub split : Text → ℕ → List Text
split [] c = [] ∷ []
split (x ∷ s) c = let parts = split s c in if x == c then [] ∷ parts else cons_head x parts

-- Membership by comparison.
pub any-text_eq : (s : Text) (a : List Text) → any (text_eq s) a ≡ true → Memᴰ s a
any-text_eq s a h =
    let (x, m, e) = any-Memᴰ (text_eq s) a h in
    subst (λ y. Memᴰ y a) (sym ((text_eq_iff s x).0 e)) m
