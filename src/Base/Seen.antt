-- ===== src/Base/Seen.antt =====
-- A list of keys that have been seen, and how many of others have not.
use Prim.Native.Nat.{ℕ, ◌+◌, ◌≤◌, ◌<◌}
use mathlib.Core.Path.{◌≡◌, refl, ap}
use mathlib.Core.Logic.{inl, inr}
use mathlib.Core.Bool.{true, false, ◌||◌}
use mathlib.Core.List.{List, [], ◌∷◌, ◌++◌, Memᴰ}
use mathlib.Core.List.Memᴰ
use native.Mathlib.Omega.{arith}
use go2nix.Base.Tests.{if◌then◌else◌}
use go2nix.Base.Lists.{any, length}
use go2nix.Base.Strings.{Text, text_eq, text_eq_iff}

pub Memᴰ-any : (k : Text) (seen : List Text) → Memᴰ k seen → any (text_eq k) seen ≡ true
Memᴰ-any k [] m = absurd (Memᴰ.not-nil m)
Memᴰ-any k (j ∷ seen) m = elim (Memᴰ.cases_cons m) [
  | inl e ↦ rw ((text_eq_iff k j).1 e) refl
  | inr t ↦ ground (arith, Memᴰ-any k seen t)
]

-- How many keys of a list are not seen.
abbrev pub unseen : List Text → List Text → ℕ
unseen [] seen = 0
unseen (k ∷ ks) seen = (if any (text_eq k) seen then 0 else 1) + unseen ks seen

any-snoc :
    (k imp : Text) (seen : List Text)
    → any (text_eq k) (seen ++ imp ∷ []) ≡ (any (text_eq k) seen || text_eq k imp)
any-snoc k imp [] = ground arith
any-snoc k imp (j ∷ seen) = ground (arith, any-snoc k imp seen)

unseen-le :
    (ks : List Text) (imp : Text) (seen : List Text) → unseen ks (seen ++ imp ∷ []) ≤ unseen ks seen
unseen-le [] imp seen = omega arith
unseen-le (k ∷ ks) imp seen = ground (arith, any-snoc k imp seen, unseen-le ks imp seen)

pub unseen-lt :
    (ks : List Text) (imp : Text) (seen : List Text)
    → Memᴰ imp ks
    → any (text_eq imp) seen ≡ false
    → unseen ks (seen ++ imp ∷ []) < unseen ks seen
unseen-lt [] imp seen m e = absurd (Memᴰ.not-nil m)
unseen-lt (k ∷ ks) imp seen m e = elim (Memᴰ.cases_cons m) [
  | inl q ↦ ground (
    arith,
    any-snoc k imp seen,
    text_eq_iff k imp,
    ap (λ x. any (text_eq x) seen) q,
    unseen-le ks imp seen,
  )
  | inr t ↦ ground (arith, any-snoc k imp seen, unseen-lt ks imp seen t e)
]

pub unseen_bound : (ks seen : List Text) → unseen ks seen ≤ length ks
unseen_bound [] seen = omega arith
unseen_bound (k ∷ ks) seen = ground (arith, unseen_bound ks seen)
