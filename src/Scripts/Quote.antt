-- ===== src/Scripts/Quote.antt =====
-- How a shell reads what is quoted, and the commands of a fetch script.
use go2nix.Base.{
  ℕ, zero, suc, List, [], ◌∷◌, ◌++◌, ◌≡◌, refl, sym, ap, ◌∙◌, append_assoc, inl, inr, Bool, ◌||◌,
  Bool-cases, Option, none, some, Text, codes, contains, flat_map, ◌==◌, ==_iff, if◌then◌else◌,
}
use go2nix.Scripts.{quote_char, shell_quote}

-- Outside quotes, between single quotes, and behind a backslash.
pub data Mode : Type 0 where
  bare quoted escaped : Mode

-- What a shell does not read as itself outside quotes.
abbrev pub is_special : ℕ → Bool
is_special c = contains (codes "$`\"&|;<>()*?[]#~!{}%^\t") c

abbrev pub first_char : ℕ → Option (Text × Text) → Option (Text × Text)
first_char c none = none
first_char c (some (word, rest)) = some (c ∷ word, rest)

-- The word that a shell reads, and what stands behind it. There is none where a quote is not
-- closed, or where a special character stands outside quotes.
abbrev pub read_word : Mode → Text → Option (Text × Text)
read_word bare [] = some ([], [])
read_word quoted [] = none
read_word escaped [] = none
read_word escaped (c ∷ s) = first_char c (read_word bare s)
read_word quoted (c ∷ s) =
    let closed = read_word bare s in
    let inside = first_char c (read_word quoted s) in if c == b'\'' then closed else inside
read_word bare (c ∷ s) =
    let opened = read_word quoted s in
    let next = read_word escaped s in
    let inside = first_char c (read_word bare s) in
    if (c == b' ') || (c == b'\n')
    then some ([], c ∷ s)
    else if c == b'\''
    then opened
    else if c == b'\\'
    then next
    else if is_special c
    then none
    else inside

-- A word with a part in front.
abbrev pub in_front : Text → Option (Text × Text) → Option (Text × Text)
in_front s none = none
in_front s (some (word, rest)) = some (s ++ word, rest)

in_front_nil : (r : Option (Text × Text)) → r ≡ in_front [] r
in_front_nil none = refl
in_front_nil (some (word, rest)) = refl

in_front_cons :
    (c : ℕ) (s : Text) (r : Option (Text × Text)) → first_char c (in_front s r) ≡ in_front (c ∷ s) r
in_front_cons c s none = refl
in_front_cons c s (some (word, rest)) = refl

read_inside :
    (s after : Text)
    → read_word quoted (flat_map quote_char s ++ (codes "'" ++ after))
      ≡ in_front s (read_word bare after)
read_inside [] after = in_front_nil (read_word bare after)
read_inside (c ∷ s) after =
    let tail = flat_map quote_char s ++ (codes "'" ++ after) in
    let ih = read_inside s after in
    ap (read_word quoted) (append_assoc (quote_char c) (flat_map quote_char s) (codes "'" ++ after))
    ∙ elim (Bool-cases (c == b'\'')) [
      | inl e ↦
          let opened : quote_char c ≡ codes "'\\''" = rw e refl in
          let same : c ≡ b'\'' = (==_iff c b'\'').0 e in
          ap (λ q. read_word quoted (q ++ tail)) opened
          ∙ ap (first_char b'\'') ih
          ∙ ap (λ x. first_char x (in_front s (read_word bare after))) (sym same)
      | inr e ↦
          let kept : quote_char c ≡ c ∷ [] = rw e refl in
          ap (λ q. read_word quoted (q ++ tail)) kept ∙ rw e (ap (first_char c) ih)
    ]
    ∙ in_front_cons c s (read_word bare after)

-- A shell reads a quoted text as that text, whatever it holds, in front of the rest of the word.
pub shell_quote_word :
    (s after : Text) → read_word bare (shell_quote s ++ after) ≡ in_front s (read_word bare after)
unfolding shell_quote
shell_quote_word s after =
    ap (read_word quoted) (append_assoc (flat_map quote_char s) (codes "'") after)
    ∙ read_inside s after

abbrev pub add_word : Text → Option (List Text × Text) → Option (List Text × Text)
add_word word none = none
add_word word (some (words, rest)) = some (word ∷ words, rest)

-- The words from a first one on, where `later` reads those behind it.
abbrev pub line_from :
    (Text → Option (List Text × Text)) → Option (Text × Text) → Option (List Text × Text)
line_from later none = none
line_from later (some (word, [])) = some (word ∷ [], [])
line_from later (some (word, c ∷ rest)) =
    let others = add_word word (later rest) in if c == b'\n' then some (word ∷ [], rest) else others

-- The words of a line of at most so many words, with a blank between them, and what stands behind
-- the line.
abbrev pub read_line : ℕ → Text → Option (List Text × Text)
read_line zero s = none
read_line (suc n) s = line_from (read_line n) (read_word bare s)
