-- ===== src/Toolchain/Defines.antt =====
-- asmArchDefines and DefaultBuildMode. `goenv` is GoEnvVar.
use go2nix.Base.{
  List, [], ◌∷◌, ◌++◌, ◌≡◌, refl, Bool, ◌||◌, inl, inr, Bool-cases, Text, codes, text_eq,
  has_prefix, any, if◌then◌else◌,
}

abbrev pub is_one_of : Text → List Text → Bool
is_one_of s names = any (text_eq s) names

-- `strings.Contains(s, part)`
abbrev pub has_part : Text → Text → Bool
has_part [] part = has_prefix [] part
has_part (c ∷ s) part = has_prefix (c ∷ s) part || has_part s part

abbrev pub define : Text → List Text
define name = codes "-D" ∷ name ∷ []

-- The define for a value, if it is set.
abbrev pub define_set : Text → Text → List Text
define_set prefix v = if text_eq v [] then [] else define (prefix ++ v)

-- The switches that fall through to the lower levels.
abbrev pub arm_levels : Text → List Text
arm_levels v =
    let five = define (codes "GOARM_5") in
    let six = define (codes "GOARM_6") ++ five in
    if has_part v (codes "7")
    then define (codes "GOARM_7") ++ six
    else if has_part v (codes "6")
    then six
    else five

abbrev pub power_levels : Text → List Text
power_levels v =
    let eight = define (codes "GOPPC64_power8") in
    let nine = define (codes "GOPPC64_power9") ++ eight in
    if text_eq v (codes "power10")
    then define (codes "GOPPC64_power10") ++ nine
    else if text_eq v (codes "power9")
    then nine
    else eight

unfoldable pub asm_arch_defines : (Text → Text) → Text → List Text
asm_arch_defines goenv goarch =
    if text_eq goarch (codes "386")
    then define_set (codes "GO386_") (goenv (codes "GO386"))
    else if text_eq goarch (codes "amd64")
    then define_set (codes "GOAMD64_") (goenv (codes "GOAMD64"))
    else if text_eq goarch (codes "arm")
    then arm_levels (goenv (codes "GOARM"))
    else if text_eq goarch (codes "arm64")
    then (if has_part (goenv (codes "GOARM64")) (codes "lse")
        then define (codes "GOARM64_LSE")
        else [])
    else if is_one_of goarch (codes "mips" ∷ codes "mipsle" ∷ [])
    then define_set (codes "GOMIPS_") (goenv (codes "GOMIPS"))
    else if is_one_of goarch (codes "mips64" ∷ codes "mips64le" ∷ [])
    then define_set (codes "GOMIPS64_") (goenv (codes "GOMIPS64"))
    else if is_one_of goarch (codes "ppc64" ∷ codes "ppc64le" ∷ [])
    then power_levels (goenv (codes "GOPPC64"))
    else if text_eq goarch (codes "riscv64")
    then define_set (codes "GORISCV64_") (goenv (codes "GORISCV64"))
    else []

unfoldable pub default_build_mode : Text → Text → Text
default_build_mode goos goarch =
    if is_one_of goos (codes "android" ∷ codes "ios" ∷ codes "windows" ∷ codes "darwin" ∷ [])
    then codes "pie"
    else codes "exe"

-- A list that ends in another one.
abbrev pub EndsIn : List Text → List Text → Type 0
EndsIn all last = (before : List Text) × (all ≡ before ++ last)

-- The defines for an arm or a ppc64 are the last ones of those of its highest level, so that those
-- of a level have those of every lower one behind them, and the lowest level is always among them.
pub asm_arch_defines_levels :
    (goenv : Text → Text)
    → EndsIn
        (define (codes "GOARM_7") ++ (define (codes "GOARM_6") ++ define (codes "GOARM_5")))
        (asm_arch_defines goenv (codes "arm"))
      × EndsIn (asm_arch_defines goenv (codes "arm")) (define (codes "GOARM_5"))
      × EndsIn
          (define (codes "GOPPC64_power10")
            ++ (define (codes "GOPPC64_power9") ++ define (codes "GOPPC64_power8")))
          (asm_arch_defines goenv (codes "ppc64le"))
      × EndsIn (asm_arch_defines goenv (codes "ppc64le")) (define (codes "GOPPC64_power8"))
unfolding asm_arch_defines
asm_arch_defines_levels goenv =
    let (arm_high, arm_low) = arm (goenv (codes "GOARM")) in
    let (power_high, power_low) = power (goenv (codes "GOPPC64")) in
    (arm_high, arm_low, power_high, power_low)
  where
    arm :
        (v : Text)
        → EndsIn
            (define (codes "GOARM_7") ++ (define (codes "GOARM_6") ++ define (codes "GOARM_5")))
            (arm_levels v)
          × EndsIn (arm_levels v) (define (codes "GOARM_5"))
    arm v = elim (Bool-cases (has_part v (codes "7"))) [
      | inl a ↦ rw a (([], refl), (define (codes "GOARM_7") ++ define (codes "GOARM_6"), refl))
      | inr a ↦ elim (Bool-cases (has_part v (codes "6"))) [
        | inl b ↦ rw (a, b) ((define (codes "GOARM_7"), refl), (define (codes "GOARM_6"), refl))
        | inr b ↦
            rw (a, b) ((define (codes "GOARM_7") ++ define (codes "GOARM_6"), refl), ([], refl))
      ]
    ]

    power :
        (v : Text)
        → EndsIn
            (define (codes "GOPPC64_power10")
              ++ (define (codes "GOPPC64_power9") ++ define (codes "GOPPC64_power8")))
            (power_levels v)
          × EndsIn (power_levels v) (define (codes "GOPPC64_power8"))
    power v = elim (Bool-cases (text_eq v (codes "power10"))) [
      | inl a ↦
          rw a (
            ([], refl),
            (define (codes "GOPPC64_power10") ++ define (codes "GOPPC64_power9"), refl),
          )
      | inr a ↦ elim (Bool-cases (text_eq v (codes "power9"))) [
        | inl b ↦
            rw (a, b)
              ((define (codes "GOPPC64_power10"), refl), (define (codes "GOPPC64_power9"), refl))
        | inr b ↦
            rw (a, b)
              (
                (define (codes "GOPPC64_power10") ++ define (codes "GOPPC64_power9"), refl),
                ([], refl),
              )
      ]
    ]
