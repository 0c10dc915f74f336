-- ===== src/CgoFlags/Regex.antt =====
-- The regular expressions that the tables of cgosecurity.go are written in, with the leftmost-first
-- matching of Go's `regexp` package: where several matches start at one place, the one that a
-- backtracking search meets first. A group that is repeated never matches the empty text here.
use go2nix.Base.{
  ℕ, zero, suc, ◌-◌, List, [], ◌∷◌, ◌++◌, Bool, false, not, ◌&&◌, ◌||◌, Option, none, some, Text,
  codes, text_eq, cut_prefix, leb, length, take, flat_map, if◌then◌else◌,
}
use Prim.Native.String.{String}

pub data Class : Type 0 where
  among : List (ℕ × ℕ) → Class
  outside : List (ℕ × ℕ) → Class

pub data Regex : Type 0 where
  lit : Text → Regex
  class : Class → Regex
  star : Class → Regex
  ◌▸◌ : Regex → Regex → Regex
  alt : Regex → Regex → Regex
  opt : Regex → Regex
  many : Regex → Regex
  stop : Regex

infixr 60 ◌▸◌
abbrev pub word : String → Regex
word s = lit (codes s)

abbrev pub plus : Class → Regex
plus k = class k ▸ star k

abbrev pub one_of : List String → Regex
one_of [] = lit []
one_of (s ∷ []) = word s
one_of (s ∷ rest) = alt (word s) (one_of rest)

-- `.`, `\d`, and the classes that the tables repeat.
abbrev pub any_char : Class
any_char = outside ((10, 10) ∷ [])

abbrev pub digit : Class
digit = among ((b'0', b'9') ∷ [])

abbrev pub word_start : Class
word_start = among ((b'A', b'Z') ∷ (b'_', b'_') ∷ (b'a', b'z') ∷ [])

abbrev pub word_char : Class
word_char = among ((b'0', b'9') ∷ (b'A', b'Z') ∷ (b'_', b'_') ∷ (b'a', b'z') ∷ [])

abbrev pub not_at : Class
not_at = outside ((b'@', b'@') ∷ [])

abbrev pub not_at_dash : Class
not_at_dash = outside ((b'@', b'@') ∷ (b'-', b'-') ∷ [])

abbrev pub not_comma : Class
not_comma = outside ((b',', b',') ∷ [])

abbrev pub not_at_comma : Class
not_at_comma = outside ((b'@', b'@') ∷ (b',', b',') ∷ [])

abbrev pub not_at_comma_dash : Class
not_at_comma_dash = outside ((b'@', b'@') ∷ (b',', b',') ∷ (b'-', b'-') ∷ [])

pub in_ranges : List (ℕ × ℕ) → ℕ → Bool
in_ranges [] c = false
in_ranges ((low, high) ∷ rest) c = (leb low c && leb c high) || in_ranges rest c

unfoldable pub in_class : Class → ℕ → Bool
unfolding in_ranges
in_class (among ranges) c = in_ranges ranges c
in_class (outside ranges) c = not (in_ranges ranges c)

-- A match is what it leaves of the text; the matches at the start of a text, the preferred first.
abbrev pub match_lit : Option Text → List Text
match_lit none = []
match_lit (some rest) = rest ∷ []

unfoldable pub match_class : Class → Text → List Text
unfolding in_class
match_class k [] = []
match_class k (c ∷ s) = if in_class k c then s ∷ [] else []

unfoldable pub match_star : Class → Text → List Text
unfolding in_class
match_star k [] = [] ∷ []
match_star k (c ∷ s) =
    let longer = match_star k s ++ (c ∷ s) ∷ [] in if in_class k c then longer else (c ∷ s) ∷ []

-- `(r)*`, where each round takes a character at least, so that there are no more than `rounds`.
unfoldable pub match_many : ℕ → (Text → List Text) → Text → List Text
match_many zero go s = s ∷ []
match_many (suc rounds) go s = flat_map (match_many rounds go) (go s) ++ s ∷ []

abbrev pub match_stop : Text → List Text
match_stop [] = [] ∷ []
match_stop (c ∷ s) = []

unfoldable pub matches : Regex → Text → List Text
unfolding match_class match_star match_many
matches (lit p) s = match_lit (cut_prefix s p)
matches (class k) s = match_class k s
matches (star k) s = match_star k s
matches (a ▸ b) s = flat_map (matches b) (matches a s)
matches (alt a b) s = matches a s ++ matches b s
matches (opt a) s = matches a s ++ s ∷ []
matches (many a) s = flat_map (match_many (length s) (matches a)) (matches a s)
matches stop s = match_stop s

abbrev pub matched : Text → List Text → Option Text
matched s [] = none
matched s (rest ∷ _) = some (take (length s - length rest) s)

-- `FindString`: the text of the leftmost match, which is empty where there is none.
unfoldable pub find_string : Regex → Text → Text
unfolding matches
find_string r [] = elim (matched [] (matches r [])) [ none ↦ [] | some found ↦ found ]
find_string r (c ∷ s) = elim (matched (c ∷ s) (matches r (c ∷ s))) [
  | none ↦ find_string r s
  | some found ↦ found
]

-- `re.FindString(arg) == arg`
unfoldable pub full_match : Text → Regex → Bool
unfolding find_string
full_match arg r = text_eq (find_string r arg) arg
