-- ===== src/BuildInfo/Spaces.antt =====
-- The white space of Go's `strings`, as pkg/buildinfo uses it.
use go2nix.Base.{ℕ, List, [], ◌∷◌, Bool, ◌||◌, ◌&&◌, Text, ◌==◌, leb, if◌then◌else◌}

-- `unicode.IsSpace`
abbrev pub is_space : ℕ → Bool
is_space c =
    (leb 9 c && leb c 13)
    || (c == 32)
    || (c == 0x85)
    || (c == 0xA0)
    || (c == 0x1680)
    || (leb 0x2000 c && leb c 0x200A)
    || (c == 0x2028)
    || (c == 0x2029)
    || (c == 0x202F)
    || (c == 0x205F)
    || (c == 0x3000)

abbrev pub trim_left : Text → Text
trim_left [] = []
trim_left (c ∷ s) = let rest = trim_left s in if is_space c then rest else c ∷ s

abbrev pub cons_trimmed : ℕ → Text → Text
cons_trimmed c [] = if is_space c then [] else c ∷ []
cons_trimmed c (d ∷ s) = c ∷ d ∷ s

abbrev pub trim_right : Text → Text
trim_right [] = []
trim_right (c ∷ s) = cons_trimmed c (trim_right s)

-- `strings.TrimSpace`
abbrev pub trim_space : Text → Text
trim_space s = trim_right (trim_left s)

abbrev pub add_field : Text → List Text → List Text
add_field [] fields = fields
add_field (c ∷ field) fields = (c ∷ field) ∷ fields

-- `strings.Fields`: the first field, which has begun, and those behind it.
abbrev pub fields_from : Text → Text × List Text
fields_from [] = ([], [])
fields_from (c ∷ s) =
    let (field, fields) = fields_from s in
    if is_space c then ([], add_field field fields) else (c ∷ field, fields)

abbrev pub fields : Text → List Text
fields s = let (field, others) = fields_from s in add_field field others
