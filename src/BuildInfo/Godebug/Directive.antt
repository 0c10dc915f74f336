-- ===== src/BuildInfo/Godebug/Directive.antt =====
-- A //go:debug directive that is written for a setting is read as that setting.
use go2nix.Base.{
  ℕ, List, [], map, ◌∷◌, ◌++◌, ◌≡◌, refl, ap, ◌∙◌, false, ◌||◌, some, Text, codes, cut, ◌==◌, ok,
  All, All-append, arith,
}
use go2nix.BuildInfo.Spaces.{is_space, trim_left, trim_right, trim_space, cons_trimmed}
use go2nix.BuildInfo.Godebug.{Setting, parse_go_debug, parse_directives, has_separator, check_pair}

-- Neither white space nor a comma.
abbrev pub IsPlain : ℕ → Type 0
IsPlain c = (is_space c || (c == b',')) ≡ false

abbrev pub IsKeyChar : ℕ → Type 0
IsKeyChar c = IsPlain c × ((c == b'=') ≡ false)

abbrev pub write_directive : Setting → Text
write_directive s = codes "//go:debug " ++ (s.key ++ (codes "=" ++ s.value))

abbrev pub IsWritable : Setting → Type 0
IsWritable s = All IsKeyChar s.key × All IsPlain s.value

key-IsPlain : (k : Text) → All IsKeyChar k → All IsPlain k
key-IsPlain [] h = tt
key-IsPlain (c ∷ k) h = (h.0.0, key-IsPlain k h.1)

trim_left_plain : (s : Text) → All IsPlain s → trim_left s ≡ s
trim_left_plain [] h = refl
trim_left_plain (c ∷ s) h = ground (arith, h.0)

trim_right_plain : (s : Text) → All IsPlain s → trim_right s ≡ s
trim_right_plain [] h = refl
trim_right_plain (c ∷ s) h = ap (cons_trimmed c) (trim_right_plain s h.1) ∙ whole c s h.0
  where
    whole : (c : ℕ) (s : Text) → IsPlain c → cons_trimmed c s ≡ c ∷ s
    whole c [] h = ground (arith, h)
    whole c (d ∷ s) h = refl

no_separator : (s : Text) → All IsPlain s → has_separator s ≡ false
no_separator [] h = refl
no_separator (c ∷ s) h = ground (arith, h.0, no_separator s h.1)

cut_key : (k v : Text) → All IsKeyChar k → cut (k ++ (codes "=" ++ v)) b'=' ≡ some (k, v)
cut_key [] v h = refl
cut_key (c ∷ k) v h = rw (h.0.1, cut_key k v h.1) refl

parse_go_debug_written : (s : Setting) → IsWritable s → parse_go_debug (write_directive s) ≡ ok s
unfolding parse_go_debug
parse_go_debug_written s h =
    let pair = s.key ++ (codes "=" ++ s.value) in
    let plain : All IsPlain pair =
      All-append IsPlain s.key (codes "=" ++ s.value) (key-IsPlain s.key h.0) (refl, h.1) in
    let trimmed : trim_space (codes " " ++ pair) ≡ pair =
      ap trim_right (trim_left_plain pair plain) ∙ trim_right_plain pair plain in
    ap (λ t. check_pair (cut t b'=')) trimmed
    ∙ ap check_pair (cut_key s.key s.value h.0)
    ∙ rw (no_separator s.key (key-IsPlain s.key h.0), no_separator s.value h.1) refl

-- Directives that are written for settings are read as those settings, in order, where no key and
-- no value has white space or a comma, and no key an equals sign.
pub parse_directives_written :
    (ss : List Setting) → All IsWritable ss → parse_directives (map write_directive ss) ≡ ss
unfolding parse_directives
parse_directives_written [] h = refl
parse_directives_written (s ∷ ss) h =
    rw (parse_go_debug_written s h.0, parse_directives)
      (ap (λ rest. s ∷ rest) (parse_directives_written ss h.1))
