-- ===== src/BuildInfo/Info/Order.antt =====
-- The settings that a binary records, and their order.
use go2nix.Base.{
  List, [], ◌∷◌, ◌++◌, ◌≡◌, ◌≢◌, refl, Bool, true, false, not, ◌&&◌, Text, codes, text_eq, Memᴰ,
  All, All-append, and-eq-true,
}
use mathlib.Core.List.Memᴰ
use go2nix.BuildInfo.Godebug.{Setting, fips140_enabled}
use go2nix.BuildInfo.Info.{BuildSettings, add_if, add_set, arch_level_var, to_debug_settings}

-- A list that is another one with some members left out.
pub data Sublist : List Text → List Text → Type 0 where
  finished : Sublist [] []
  leave_out : {k : Text} {ks js : List Text} → Sublist js ks → Sublist js (k ∷ ks)
  keep : {k : Text} {ks js : List Text} → Sublist js ks → Sublist (k ∷ js) (k ∷ ks)

abbrev pub setting_keys : List Setting → List Text
setting_keys [] = []
setting_keys (s ∷ ss) = s.key ∷ setting_keys ss

-- cmd/go's order.
abbrev pub key_order : BuildSettings → List Text
key_order s =
    codes "-buildmode"
    ∷ codes "-compiler"
    ∷ codes "-tags"
    ∷ codes "-trimpath"
    ∷ codes "DefaultGODEBUG"
    ∷ codes "CGO_ENABLED"
    ∷ codes "GOARCH"
    ∷ codes "GOFIPS140"
    ∷ codes "GOOS"
    ∷ arch_level_var s.goarch
    ∷ []

abbrev pub IsGiven : Setting → Type 0
IsGiven s = (s.key ≢ []) × (s.value ≢ [])

add_if-Sublist :
    (c : Bool) (k v : Text) (rest : List Setting) {ks : List Text}
    → Sublist (setting_keys rest) ks
    → Sublist (setting_keys (add_if c k v ++ rest)) (k ∷ ks)
add_if-Sublist true k v rest h = keep h
add_if-Sublist false k v rest h = leave_out h

add_if-Sublist_last : (c : Bool) (k v : Text) → Sublist (setting_keys (add_if c k v)) (k ∷ [])
add_if-Sublist_last true k v = keep finished
add_if-Sublist_last false k v = leave_out finished

not_empty : (s : Text) → not (text_eq s []) ≡ true → s ≢ []
not_empty [] h = cc
not_empty (c ∷ s) h = cc

add_if-IsGiven :
    (c : Bool) (k v : Text) → (c ≡ true → (k ≢ []) × (v ≢ [])) → All IsGiven (add_if c k v)
add_if-IsGiven true k v h = (h refl, tt)
add_if-IsGiven false k v h = tt

enabled-not_empty : (v : Text) → fips140_enabled v ≡ true → v ≢ []
enabled-not_empty v h =
    not_empty v (and-eq-true (not (text_eq v [])) (not (text_eq v (codes "off"))) h).0

add_set-IsGiven : (k v : Text) → k ≢ [] → All IsGiven (add_set k v)
add_set-IsGiven k v h = add_if-IsGiven (not (text_eq v [])) k v (λ e. (h, not_empty v e))

-- In the order of keys, and all set.
abbrev pub InOrder : List Setting → List Text → Type 0
InOrder ss ks = Sublist (setting_keys ss) ks × All IsGiven ss

-- Settings behind one that is added under a condition, or where it has a value.
step :
    (c : Bool) (k v : Text) (rest : List Setting) (ks : List Text)
    → (c ≡ true → (k ≢ []) × (v ≢ []))
    → InOrder rest ks
    → InOrder (add_if c k v ++ rest) (k ∷ ks)
step c k v rest ks h order = (
  add_if-Sublist c k v rest order.0,
  All-append IsGiven (add_if c k v) rest (add_if-IsGiven c k v h) order.1,
)

step_set :
    (k v : Text) (rest : List Setting) (ks : List Text)
    → k ≢ []
    → InOrder rest ks
    → InOrder (add_set k v ++ rest) (k ∷ ks)
step_set k v rest ks h order = step (not (text_eq v [])) k v rest ks (λ e. (h, not_empty v e)) order

-- The settings of a binary stand in cmd/go's order, none of them with an empty key or value, and
-- the compiler and -trimpath are always among them.
pub to_debug_settings_order :
    (s : BuildSettings)
    → Sublist (setting_keys (to_debug_settings s)) (key_order s)
      × All IsGiven (to_debug_settings s)
      × Memᴰ (record { key = codes "-compiler"; value = codes "gc" }) (to_debug_settings s)
      × Memᴰ (record { key = codes "-trimpath"; value = codes "true" }) (to_debug_settings s)
unfolding to_debug_settings
to_debug_settings_order s =
    let level = not (text_eq (arch_level_var s.goarch) []) && not (text_eq s.goarch_level []) in
    let arch = add_if level (arch_level_var s.goarch) s.goarch_level in
    let arch_order : InOrder arch (arch_level_var s.goarch ∷ []) = (
      add_if-Sublist_last level (arch_level_var s.goarch) s.goarch_level,
      add_if-IsGiven level (arch_level_var s.goarch) s.goarch_level
          (λ e. let (a, b) = and-eq-true _ _ e in (not_empty _ a, not_empty s.goarch_level b)),
    ) in
    let goos = add_set (codes "GOOS") s.goos ++ arch in
    let goos_order = step_set (codes "GOOS") s.goos arch _ (λ e. cc) arch_order in
    let fips = add_if (fips140_enabled s.gofips140) (codes "GOFIPS140") s.gofips140 ++ goos in
    let fips_order =
      step (fips140_enabled s.gofips140) (codes "GOFIPS140") s.gofips140 goos _
        (λ e. (λ q. cc, enabled-not_empty s.gofips140 e)) goos_order in
    let goarch = add_set (codes "GOARCH") s.goarch ++ fips in
    let goarch_order = step_set (codes "GOARCH") s.goarch fips _ (λ e. cc) fips_order in
    let cgo = add_set (codes "CGO_ENABLED") s.cgo_enabled ++ goarch in
    let cgo_order = step_set (codes "CGO_ENABLED") s.cgo_enabled goarch _ (λ e. cc) goarch_order in
    let godebug = add_set (codes "DefaultGODEBUG") s.default_godebug ++ cgo in
    let godebug_order =
      step_set (codes "DefaultGODEBUG") s.default_godebug cgo _ (λ e. cc) cgo_order in
    let trimpath = add_if true (codes "-trimpath") (codes "true") ++ godebug in
    let trimpath_order =
      step true (codes "-trimpath") (codes "true") godebug _ (λ _. (λ e. cc, λ e. cc))
        godebug_order in
    let tags = add_set (codes "-tags") s.tags ++ trimpath in
    let tags_order = step_set (codes "-tags") s.tags trimpath _ (λ e. cc) trimpath_order in
    let compiler = add_if true (codes "-compiler") (codes "gc") ++ tags in
    let compiler_order =
      step true (codes "-compiler") (codes "gc") tags _ (λ _. (λ e. cc, λ e. cc)) tags_order in
    let (order, set) =
      step_set (codes "-buildmode") s.build_mode compiler _ (λ e. cc) compiler_order in
    (
      order,
      set,
      Memᴰ.append_right (add_set (codes "-buildmode") s.build_mode) (Memᴰ.head refl),
      Memᴰ.append_right (add_set (codes "-buildmode") s.build_mode)
          (Memᴰ.tail (Memᴰ.append_right (add_set (codes "-tags") s.tags) (Memᴰ.head refl))),
    )
