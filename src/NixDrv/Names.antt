-- ===== src/NixDrv/Names.antt =====
-- go/go2nix/pkg/nixdrv/sanitize.go: store names. SHA-256 is a parameter.
pub mod Valid
use go2nix.Base.{
  ℕ, ◌+◌, ◌-◌, ◌/◌, ◌%◌, List, [], ◌∷◌, ◌++◌, Bool, ◌&&◌, ◌||◌, Text, codes, ltb, leb, ◌==◌, length,
  take, flat_map, if◌then◌else◌,
}

abbrev pub max_sanitized_len : ℕ
max_sanitized_len = 160

abbrev pub is_alnum : ℕ → Bool
is_alnum c = (leb b'0' c && leb c b'9') || (leb b'a' c && leb c b'z') || (leb b'A' c && leb c b'Z')

abbrev pub is_punctuation : ℕ → Bool
is_punctuation c =
    (c == b'+') || (c == b'-') || (c == b'.') || (c == b'_') || (c == b'?') || (c == b'=')

-- The switch on a character.
unfoldable pub sanitize_rune : ℕ → Text
sanitize_rune c =
    if is_alnum c
    then c ∷ []
    else if is_punctuation c
    then c ∷ []
    else if c == b'/'
    then codes "-"
    else if c == b'@'
    then codes "_at_"
    else codes "_"

-- `hex.EncodeToString`
unfoldable pub hex_digit : ℕ → ℕ
hex_digit n = if ltb n 10 then b'0' + n else b'a' + (n - 10)

abbrev pub hex : List ℕ → Text
hex [] = []
hex (v ∷ bytes) = hex_digit (v / 16) ∷ hex_digit (v % 16) ∷ hex bytes

module _ (sha256 : Text → List ℕ) where
  unfoldable pub sanitize_name : Text → Text
  unfolding sanitize_rune hex_digit
  sanitize_name s =
      let san = flat_map sanitize_rune s in
      if leb (length san) max_sanitized_len
      then san
      else take (max_sanitized_len - 9) san ++ (codes "-" ++ hex (take 4 (sha256 s)))

  unfoldable pub pkg_drv_name : Text → Text → Text
  pkg_drv_name import_path version =
      codes "gopkg-" ++ (sanitize_name import_path ++ (codes "-" ++ version))

  unfoldable pub mod_drv_name : Text → Text
  unfolding sanitize_name
  mod_drv_name mod_key = codes "gomod-" ++ sanitize_name mod_key

  unfoldable pub link_drv_name : Text → Text
  unfolding sanitize_name
  link_drv_name pname = codes "golink-" ++ sanitize_name pname

  unfoldable pub collect_drv_name : Text → Text
  unfolding sanitize_name
  collect_drv_name pname = codes "gocollect-" ++ sanitize_name pname
