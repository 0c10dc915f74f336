-- ===== src/Base/Results.antt =====
-- A Go function that returns `(value, error)`.
use mathlib.Core.Path.{◌≡◌, refl}

pub data Result (E A : Type 0) : Type 0 where
  err : E → Result E A
  ok : A → Result E A

module _ {E : Type 0} where
  -- `if err != nil { return err }`
  infixl 5 ◌>>=◌
  abbrev pub ◌>>=◌ : {A B : Type 0} → Result E A → (A → Result E B) → Result E B
  err failure >>= next = err failure
  ok value >>= next = next value

  -- Where a chain of two steps succeeds, both do.
  pub ok_of_bind :
      {A B : Type 0} {last : B} (next : A → Result E B) (first : Result E A)
      → (first >>= next) ≡ ok last
      → record { value : A; came : first ≡ ok value; went : next value ≡ ok last }
  ok_of_bind next (err failure) h = cc
  ok_of_bind next (ok value) h = record { value = value; came = refl; went = h }

  pub ok_cancel : {A : Type 0} {x y : A} → ◌≡◌ {A = Result E A} (ok x) (ok y) → x ≡ y
  ok_cancel h = cc
