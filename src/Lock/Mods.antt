-- ===== src/Lock/Mods.antt =====
-- go/go2nix/pkg/golist/golist.go: the modules that a go.mod requires, with replaces applied.
-- A parsed go.mod, and `String` of module.Version, come from golang.org/x/mod: the first is an
-- argument and the second a parameter, `show`.
use go2nix.Base.{
  List, [], ◌∷◌, ◌++◌, Bool, true, false, ◌&&◌, not, Option, none, some, Text, codes, text_eq,
  text_leb, cut_suffix, any, if◌then◌else◌,
}

pub record ModVersion : Type 0 where
  pub path : Text
  pub version : Text

pub record Replace : Type 0 where
  pub old : ModVersion
  pub new : ModVersion

pub record GoMod : Type 0 where
  pub require : List ModVersion
  pub replace : List Replace

-- `ModInfo`
pub record ModInfo : Type 0 where
  pub key : Text
  pub fetch_path : Text
  pub version : Text

abbrev pub mod_eq : ModVersion → ModVersion → Bool
mod_eq a b = text_eq a.path b.path && text_eq a.version b.version

abbrev pub trim_suffix : Text → Text → Text
trim_suffix s suffix = elim (cut_suffix s suffix) [ none ↦ s | some rest ↦ rest ]

-- `ModInfo.Replaced`
unfoldable pub replaced : ModInfo → Text
replaced m =
    if not (text_eq (trim_suffix m.key (codes "@" ++ m.version)) m.fetch_path)
    then m.fetch_path
    else []

-- The map `replaces`, where a later entry for one module stands in the place of an earlier one.
unfoldable pub replaces : List Replace → (ModVersion → Option Replace) → ModVersion → Option Replace
replaces [] found = found
replaces (r ∷ rest) found = replaces rest (λ m. if mod_eq r.old m then some r else found m)

-- The entry for a requirement: one for its version, or one for every version.
unfoldable pub find_replace : GoMod → ModVersion → Option Replace
unfolding replaces
find_replace gm req = elim (replaces gm.replace (λ _. none) req) [
  | some r ↦ some r
  | none ↦ replaces gm.replace (λ _. none) (record { path = req.path; version = [] })
]

module _ (show : Text → Text → Text) where
  -- The body of the loop of CollectGoModModules: `none` where it goes on to the next requirement.
  unfoldable pub mod_info : GoMod → ModVersion → Option ModInfo
  unfolding find_replace
  mod_info gm req = elim (find_replace gm req) [
    | none ↦
        some
          (record { key = show req.path req.version; fetch_path = req.path; version = req.version })
    | some r ↦
        if text_eq r.new.version []
        then none
        else some (record {
          key = show req.path r.new.version;
          fetch_path = r.new.path;
          version = r.new.version;
        })
  ]

  -- The loop of CollectGoModModules.
  unfoldable pub collect : GoMod → List Text → List ModVersion → List ModInfo
  unfolding mod_info
  collect gm seen [] = []
  collect gm seen (req ∷ rest) = elim (mod_info gm req) [
    | none ↦ collect gm seen rest
    | some m ↦ elim (any (text_eq m.key) seen) [
      | true ↦ collect gm seen rest
      | false ↦ m ∷ collect gm (m.key ∷ seen) rest
    ]
  ]

-- `sort.Slice` by key; the keys that are sorted differ.
abbrev pub insert_by_key : ModInfo → List ModInfo → List ModInfo
insert_by_key m [] = m ∷ []
insert_by_key m (n ∷ ms) =
    let rest = n ∷ insert_by_key m ms in if text_leb m.key n.key then m ∷ n ∷ ms else rest

unfoldable pub sort_by_key : List ModInfo → List ModInfo
sort_by_key [] = []
sort_by_key (m ∷ ms) = insert_by_key m (sort_by_key ms)

unfoldable pub collect_go_mod_modules : (Text → Text → Text) → GoMod → List ModInfo
unfolding collect sort_by_key
collect_go_mod_modules show gm = sort_by_key (collect show gm [] gm.require)
