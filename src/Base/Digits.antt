-- ===== src/Base/Digits.antt =====
-- `strconv.Atoi` on Go's 64-bit int.
use Prim.Native.Nat.{ℕ, zero, suc, ◌+◌, ◌-◌, ◌*◌, ◌^◌}
use mathlib.Core.Bool.{Bool, ◌&&◌}
use mathlib.Core.Option.{Option, none, some}
use mathlib.Core.List.{[], ◌∷◌}
use go2nix.Base.Tests.{leb, ◌==◌, if◌then◌else◌}
use go2nix.Base.Lists.{all}
use go2nix.Base.Strings.{Text}

-- `negsuc n` is -(n + 1).
pub data ℤ : Type 0 where
  pos negsuc : ℕ → ℤ

abbrev pub is_digit : ℕ → Bool
is_digit c = leb b'0' c && leb c b'9'

-- The number of the digits that a text begins with, behind the digits read so far.
abbrev pub read_digits : ℕ → Text → ℕ
read_digits n [] = n
read_digits n (c ∷ s) =
    let rest = read_digits (n * 10 + (c - b'0')) s in if is_digit c then rest else n

abbrev pub max_int : ℕ
max_int = 2 ^ 63 - 1

abbrev pub negative : ℕ → ℤ
negative zero = pos 0
negative (suc n) = negsuc n

abbrev pub digits_up_to : ℕ → Text → Option ℕ
digits_up_to largest [] = none
digits_up_to largest (c ∷ s) =
    if all is_digit (c ∷ s) && leb (read_digits 0 (c ∷ s)) largest
    then some (read_digits 0 (c ∷ s))
    else none

abbrev pub with_sign : (ℕ → ℤ) → Option ℕ → Option ℤ
with_sign sign none = none
with_sign sign (some n) = some (sign n)

unfoldable pub atoi : Text → Option ℤ
atoi [] = none
atoi (c ∷ s) =
    if c == b'-'
    then with_sign negative (digits_up_to (max_int + 1) s)
    else if c == b'+'
    then with_sign pos (digits_up_to max_int s)
    else with_sign pos (digits_up_to max_int (c ∷ s))
