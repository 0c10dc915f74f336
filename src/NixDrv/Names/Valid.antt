-- ===== src/NixDrv/Names/Valid.antt =====
-- Sanitized names are store names, short enough, and stay as they are when they are sanitized again.
use go2nix.Base.{
  ℕ, ◌*◌, ◌/◌, ◌%◌, ◌≤◌, ◌<◌, List, [], ◌∷◌, ◌++◌, ◌≡◌, refl, ap₂, true, ◌||◌, Bool-cases, inl, inr,
  Text, codes, leb, leb→le, le→leb, or-eq-true, length, length-append, length-take, take, flat_map,
  All, All-append, All-take, arith,
}
use go2nix.NixDrv.Names.{
  is_alnum, is_punctuation, sanitize_rune, hex_digit, hex, sanitize_name, pkg_drv_name,
}

-- [a-zA-Z0-9+-._?=]
abbrev pub IsStoreChar : ℕ → Type 0
IsStoreChar c = (is_alnum c || is_punctuation c) ≡ true

sanitize_rune-IsStoreChar : (c : ℕ) → All IsStoreChar (sanitize_rune c)
unfolding sanitize_rune
sanitize_rune-IsStoreChar c = ground arith

sanitize_rune_fixed : (c : ℕ) → IsStoreChar c → sanitize_rune c ≡ c ∷ []
unfolding sanitize_rune
sanitize_rune_fixed c h = elim (or-eq-true (is_alnum c) (is_punctuation c) h) [
  | inl e ↦ rw e
  | inr e ↦ elim (Bool-cases (is_alnum c)) [ inl a ↦ rw a | inr a ↦ rw (a, e) ]
]

runes-IsStoreChar : (s : Text) → All IsStoreChar (flat_map sanitize_rune s)
runes-IsStoreChar [] = tt
runes-IsStoreChar (c ∷ s) =
    All-append IsStoreChar (sanitize_rune c) _ (sanitize_rune-IsStoreChar c) (runes-IsStoreChar s)

runes_fixed : (s : Text) → All IsStoreChar s → flat_map sanitize_rune s ≡ s
runes_fixed [] h = refl
runes_fixed (c ∷ s) h = ap₂ (λ x y. x ++ y) (sanitize_rune_fixed c h.0) (runes_fixed s h.1)

abbrev pub IsByte : ℕ → Type 0
IsByte v = v < 256

hex_digit-IsStoreChar : (n : ℕ) → n < 16 → IsStoreChar (hex_digit n)
unfolding hex_digit
hex_digit-IsStoreChar n h = ground arith

hex-IsStoreChar : (bytes : List ℕ) → All IsByte bytes → All IsStoreChar (hex bytes)
hex-IsStoreChar [] h = tt
hex-IsStoreChar (v ∷ bytes) h = (
  hex_digit-IsStoreChar (v / 16) (omega arith),
  (hex_digit-IsStoreChar (v % 16) (omega arith), hex-IsStoreChar bytes h.1),
)

length-hex : (bytes : List ℕ) → length (hex bytes) ≡ 2 * length bytes
length-hex [] = omega arith
length-hex (v ∷ bytes) = omega (arith, length-hex bytes)

module _ (sha256 : Text → List ℕ) where
  length-sanitize_name : (s : Text) → length (sanitize_name sha256 s) ≤ 160
  unfolding sanitize_name
  length-sanitize_name s = elim (Bool-cases (leb (length (flat_map sanitize_rune s)) 160)) [
    | inl e ↦ rw e (leb→le _ 160 e)
    | inr e ↦
        let san = flat_map sanitize_rune s in
        rw e (
          omega (
            arith,
            length-append (take 151 san) (codes "-" ++ hex (take 4 (sha256 s))),
            length-take 151 san,
            length-hex (take 4 (sha256 s)),
            length-take 4 (sha256 s),
          ))
  ]

  sanitize_name-IsStoreChar :
      (s : Text) → All IsByte (sha256 s) → All IsStoreChar (sanitize_name sha256 s)
  unfolding sanitize_name
  sanitize_name-IsStoreChar s h = elim (Bool-cases (leb (length (flat_map sanitize_rune s)) 160)) [
    | inl e ↦ rw e (runes-IsStoreChar s)
    | inr e ↦
        let digits = hex-IsStoreChar (take 4 (sha256 s)) (All-take IsByte 4 (sha256 s) h) in
        rw e (
          All-append IsStoreChar (take 151 (flat_map sanitize_rune s)) _
            (All-take IsStoreChar 151 (flat_map sanitize_rune s) (runes-IsStoreChar s))
            (refl, digits))
  ]

  -- A store name of the allowed length is left alone.
  sanitize_name_fixed : (s : Text) → All IsStoreChar s → length s ≤ 160 → sanitize_name sha256 s ≡ s
  unfolding sanitize_name
  sanitize_name_fixed s h short = rw (runes_fixed s h) (rw (le→leb (length s) 160 short))

-- Where the hash gives bytes, a sanitized name is at most 160 characters long, all of them allowed
-- in a store name, and sanitizing it again changes nothing. A name that is that already stays.
pub sanitize_name_valid :
    (sha256 : Text → List ℕ) (s : Text)
    → ((t : Text) → All IsByte (sha256 t))
    → All IsStoreChar (sanitize_name sha256 s)
      × (length (sanitize_name sha256 s) ≤ 160)
      × (sanitize_name sha256 (sanitize_name sha256 s) ≡ sanitize_name sha256 s)
      × (All IsStoreChar s → length s ≤ 160 → sanitize_name sha256 s ≡ s)
sanitize_name_valid sha256 s h =
    let valid = sanitize_name-IsStoreChar sha256 s (h s) in
    let short = length-sanitize_name sha256 s in
    (valid, short, sanitize_name_fixed sha256 _ valid short, sanitize_name_fixed sha256 s)

-- The name of a package's derivation is allowed in the store and stays within Nix's 211 characters,
-- where the version has allowed characters only, and 44 of them at most.
pub pkg_drv_name_valid :
    (sha256 : Text → List ℕ) (import_path version : Text)
    → ((t : Text) → All IsByte (sha256 t))
    → All IsStoreChar version
    → length version ≤ 44
    → All IsStoreChar (pkg_drv_name sha256 import_path version)
      × (length (pkg_drv_name sha256 import_path version) ≤ 211)
unfolding pkg_drv_name
pkg_drv_name_valid sha256 import_path version h v short = (
  (
    refl,
    (
      refl,
      (
        refl,
        (
          refl,
          (
            refl,
            (
              refl,
              All-append IsStoreChar (sanitize_name sha256 import_path) (codes "-" ++ version)
                  (sanitize_name-IsStoreChar sha256 import_path (h import_path)) (refl, v),
            ),
          ),
        ),
      ),
    ),
  ),
  omega (
    arith,
    length-append (sanitize_name sha256 import_path) (codes "-" ++ version),
    length-sanitize_name sha256 import_path,
  ),
)
