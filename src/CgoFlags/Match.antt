-- ===== src/CgoFlags/Match.antt =====
-- `re.FindString(arg) == arg` for an argument that is not empty: the expression matches it whole.
use go2nix.Base.{
  ℕ, ◌-◌, ◌≤◌, List, [], ◌∷◌, ◌≡◌, refl, ap, sym, ◌⊎◌, inl, inr, true, none, some, Text,
  text_eq_iff, length, take, length-take, Memᴰ, arith,
}
use mathlib.Core.List.Memᴰ
use go2nix.CgoFlags.Regex.{Regex, matches, matched, find_string, full_match}

-- The first match is behind nothing, or it leaves the text `rest`.
matched-cases :
    (s : Text) (ms : List Text)
    → (matched s ms ≡ none)
      ⊎ ((rest : Text) × Memᴰ rest ms × (matched s ms ≡ some (take (length s - length rest) s)))
matched-cases s [] = inl refl
matched-cases s (rest ∷ ms) = inr (rest, Memᴰ.head refl, refl)

length-find_string : (r : Regex) (s : Text) → length (find_string r s) ≤ length s
unfolding find_string
length-find_string r [] = elim (matched-cases [] (matches r [])) [
  | inl e ↦ rw (e, find_string) (omega arith)
  | inr (rest, m, e) ↦ rw (e, find_string) (omega (arith, length-take {A = ℕ} (0 - length rest) []))
]
length-find_string r (c ∷ s) = elim (matched-cases (c ∷ s) (matches r (c ∷ s))) [
  | inl e ↦ rw (e, find_string) (omega (arith, length-find_string r s))
  | inr (rest, m, e) ↦
      rw (e, find_string) (omega (arith, length-take (length (c ∷ s) - length rest) (c ∷ s)))
]

nil_of_length : (s : Text) → length s ≡ 0 → s ≡ []
nil_of_length [] h = refl
nil_of_length (c ∷ s) h = absurd (omega arith)

pub full_match_lem :
    (r : Regex) (c : ℕ) (s : Text) → full_match (c ∷ s) r ≡ true → Memᴰ [] (matches r (c ∷ s))
unfolding full_match find_string
full_match_lem r c s h = elim (matched-cases (c ∷ s) (matches r (c ∷ s))) [
  | inl e ↦ absurd (omega (arith, ap length (rw (e, find_string) at found), length-find_string r s))
  | inr (rest, m, e) ↦
      let whole = ap length (rw (e, find_string) at found) in
      Memᴰ.cast
        (sym (
          nil_of_length rest
            (omega (arith, whole, length-take (length (c ∷ s) - length rest) (c ∷ s)))))
        m
]
  where
    found : find_string r (c ∷ s) ≡ c ∷ s
    found = (text_eq_iff (find_string r (c ∷ s)) (c ∷ s)).0 h
