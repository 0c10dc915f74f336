-- ===== src/BuildInfo/Godebug/Precedence.antt =====
-- Which value a setting has, and which version the defaults are those of.
use go2nix.Base.{
  ℕ, List, [], ◌∷◌, ◌++◌, ◌≡◌, refl, sym, ap, ap₂, ◌∙◌, inl, inr, Bool, true, false, Bool-cases,
  Option, none, some, Text, codes, text_eq, trim_prefix, Dict, lookup, insert, lookup-insert,
  if◌then◌else◌,
}
use go2nix.BuildInfo.Godebug.Table.{Entry}
use go2nix.BuildInfo.Godebug.{
  Setting, is_default, or_else, parse_go_minor, fips140_enabled, base_minor, counts, add_defaults,
  apply_directives, own_or_copy, is_own, settings,
}

abbrev pub first_of : Option Text → Option Text → Option Text
first_of none b = b
first_of (some v) b = some v

abbrev pub first_minor : Option ℕ → Option ℕ → Option ℕ
first_minor none b = b
first_minor (some v) b = some v

-- The value of the last directive for a key, which is not `default`.
abbrev pub last_value : Text → List Setting → Option Text
last_value k [] = none
last_value k (gd ∷ rest) =
    first_of (last_value k rest)
      (if is_default gd then none else if text_eq gd.key k then some gd.value else none)

-- The minor version of the last `default=` directive that has one.
abbrev pub last_default : List Setting → Option ℕ
last_default [] = none
last_default (gd ∷ rest) =
    first_minor (last_default rest)
      (if is_default gd then parse_go_minor (trim_prefix gd.value (codes "go")) else none)

-- The old value of the last row for a key that counts.
abbrev pub last_counting : Bool → Option ℕ → ℕ → Text → List Entry → Option Text
last_counting own toolchain minor k [] = none
last_counting own toolchain minor k (entry ∷ rest) =
    first_of (last_counting own toolchain minor k rest) (
      if counts own toolchain minor entry
      then (if text_eq entry.name k then some entry.old else none)
      else none)

abbrev pub fips140_value : Text → Text → Option Text
fips140_value fips140 k =
    if fips140_enabled fips140
    then (if text_eq (codes "fips140") k then some (codes "on") else none)
    else none

pub first_of_assoc : (a b c : Option Text) → first_of a (first_of b c) ≡ first_of (first_of a b) c
first_of_assoc none b c = refl
first_of_assoc (some v) b c = refl

pub first_of-none : (a : Option Text) → a ≡ first_of a none
first_of-none none = refl
first_of-none (some v) = refl

pub last_value-append :
    (k : Text) (a b : List Setting)
    → last_value k (a ++ b) ≡ first_of (last_value k b) (last_value k a)
last_value-append k [] b = first_of-none (last_value k b)
last_value-append k (gd ∷ a) b =
    rw (last_value-append k a b) (sym (first_of_assoc (last_value k b) (last_value k a) _))

-- Inserting, or not, in terms of looking up.
lookup-insert_if :
    (c : Bool) (k asked v : Text) (m : Dict Text)
    → lookup asked (if c then insert k v m else m)
      ≡ first_of (if c then (if text_eq k asked then some v else none) else none) (lookup asked m)
lookup-insert_if false k asked v m = refl
lookup-insert_if true k asked v m = elim (Bool-cases (text_eq k asked)) [
  | inl e ↦ rw (lookup-insert m k v asked, e) refl
  | inr e ↦ rw (lookup-insert m k v asked, e) refl
]

lookup-insert_unless :
    (c : Bool) (k asked v : Text) (m : Dict Text)
    → lookup asked (if c then m else insert k v m)
      ≡ first_of (if c then none else (if text_eq k asked then some v else none)) (lookup asked m)
lookup-insert_unless true k asked v m = refl
lookup-insert_unless false k asked v m = lookup-insert_if true k asked v m

lookup-apply_directives :
    (k : Text) (ds : List Setting) (m : Dict Text)
    → lookup k (apply_directives ds m) ≡ first_of (last_value k ds) (lookup k m)
unfolding apply_directives
lookup-apply_directives k [] m = refl
lookup-apply_directives k (gd ∷ rest) m =
    lookup-apply_directives k rest _
    ∙ ap (first_of (last_value k rest)) (lookup-insert_unless (is_default gd) gd.key k gd.value m)
    ∙ first_of_assoc (last_value k rest) _ _

lookup-add_defaults :
    (own : Bool) (toolchain : Option ℕ) (minor : ℕ) (k : Text) (table : List Entry) (m : Dict Text)
    → lookup k (add_defaults own toolchain minor table m)
      ≡ first_of (last_counting own toolchain minor k table) (lookup k m)
unfolding add_defaults
lookup-add_defaults own toolchain minor k [] m = refl
lookup-add_defaults own toolchain minor k (entry ∷ rest) m =
    lookup-add_defaults own toolchain minor k rest _
    ∙ ap (first_of (last_counting own toolchain minor k rest))
        (lookup-insert_if (counts own toolchain minor entry) entry.name k entry.old m)
    ∙ first_of_assoc (last_counting own toolchain minor k rest) _ _

base_minor_last :
    (ds : List Setting) (minor : ℕ) → base_minor ds minor ≡ or_else (last_default ds) minor
unfolding base_minor
base_minor_last [] minor = refl
base_minor_last (gd ∷ rest) minor =
    base_minor_last rest _
    ∙ later (last_default rest) (is_default gd) (parse_go_minor (trim_prefix gd.value (codes "go")))
  where
    later :
        (l : Option ℕ) (d : Bool) (p : Option ℕ)
        → or_else l (if d then or_else p minor else minor)
          ≡ or_else (first_minor l (if d then p else none)) minor
    later none true p = refl
    later none false p = refl
    later (some n) d p = refl

-- The value of a setting is that of the last //go:debug directive for it, else that of the last
-- godebug line of the go.mod for it, else `on` for `fips140` where GOFIPS140 enables it, else the
-- old value of the last row of the table that counts. The rows count for the version of the last
-- `default=` directive that has one, and for that of the go directive where none has.
pub settings_precedence :
    (minor : ℕ) (mod_lines directives : List Setting) (fips140 : Text) (toolchain : Option ℕ)
    (table : Option (List Entry)) (k : Text)
    → lookup k (settings minor (mod_lines ++ directives) fips140 toolchain table)
      ≡ first_of (last_value k directives) (
          first_of (last_value k mod_lines) (
            first_of (fips140_value fips140 k) (
              last_counting
                (is_own table)
                toolchain
                (or_else (last_default (mod_lines ++ directives)) minor)
                k
                (own_or_copy table))))
unfolding settings
settings_precedence minor mod_lines directives fips140 toolchain table k =
    lookup-apply_directives k (mod_lines ++ directives) _
    ∙ ap₂ first_of (last_value-append k mod_lines directives) (
        lookup-insert_if (fips140_enabled fips140) (codes "fips140") k (codes "on") _
        ∙ ap (first_of (fips140_value fips140 k)) defaults)
    ∙ sym (first_of_assoc (last_value k directives) (last_value k mod_lines) _)
  where
    base : ℕ
    base = base_minor (mod_lines ++ directives) minor

    defaults :
        lookup k (add_defaults (is_own table) toolchain base (own_or_copy table) [])
        ≡ last_counting
            (is_own table)
            toolchain
            (or_else (last_default (mod_lines ++ directives)) minor)
            k
            (own_or_copy table)
    defaults =
        lookup-add_defaults (is_own table) toolchain base k (own_or_copy table) []
        ∙ sym (first_of-none _)
        ∙ ap (λ b. last_counting (is_own table) toolchain b k (own_or_copy table))
            (base_minor_last (mod_lines ++ directives) minor)
