-- ===== src/Toolchain/Tests.antt =====
-- The theorems on go/go2nix/pkg/compile/util.go at concrete inputs.
use go2nix.Base.{
  ℕ, ◌≤◌, min, List, [], ◌∷◌, ◌++◌, ◌≡◌, refl, none, some, Text, codes, text_eq, atoi, pos,
  if◌then◌else◌, arith,
}
use go2nix.Toolchain.Version.{
  ModFile, absent, go_mod, lang_version, find_go_version, lang_version_lang,
}
use go2nix.Toolchain.Concurrency.{
  build_cores, go_source_bytes, gc_backend_concurrency, Fits, gc_backend_concurrency_bounds,
}
use go2nix.Toolchain.Defines.{
  asm_arch_defines, default_build_mode, define, EndsIn, asm_arch_defines_levels,
}

abbrev dirs : List ModFile
dirs = absent ∷ go_mod (some (codes "1.22.4")) ∷ go_mod none ∷ []

found_version : find_go_version dirs ≡ codes "1.22"
unfolding find_go_version
found_version = refl

release_here :
    (lang_version (codes "1.21.3") ≡ lang_version (codes "1.21"))
    × (lang_version (lang_version (codes "1.21rc2")) ≡ lang_version (codes "1.21rc2"))
    × (lang_version (find_go_version dirs) ≡ find_go_version dirs)
release_here =
    lang_version_lang (codes "1") (codes "21") (codes "3") (codes "1.21rc2") dirs refl refl

cores :
    (build_cores (codes "+6") 8 ≡ 6)
    × (build_cores (codes "0") 8 ≡ 8)
    × (build_cores (codes "x") 8 ≡ 8)
unfolding build_cores
cores = (refl, refl, refl)

gc_backend_concurrency_bounds_example :
    (1 ≤ build_cores (codes "6") 8)
    × (build_cores (codes "6") 8 ≤ 8)
    × ((n : ℕ) → atoi (codes "6") ≡ some (pos n) → 1 ≤ n → build_cores (codes "6") 8 ≡ min n 8)
    × Fits
        (build_cores (codes "6") 8)
        (go_source_bytes (some 700 ∷ none ∷ []))
        (gc_backend_concurrency (codes "1") (build_cores (codes "6") 8) (some 700 ∷ none ∷ []))
gc_backend_concurrency_bounds_example =
    gc_backend_concurrency_bounds (codes "6") (codes "1") 8 (some 700 ∷ none ∷ []) (omega arith)

abbrev goenv : Text → Text
goenv key = if text_eq key (codes "GOARM") then codes "6,softfloat" else codes "power9"

six : asm_arch_defines goenv (codes "arm") ≡ define (codes "GOARM_6") ++ define (codes "GOARM_5")
unfolding asm_arch_defines
six = refl

pie : default_build_mode (codes "darwin") (codes "arm64") ≡ codes "pie"
unfolding default_build_mode
pie = refl

levels_here :
    EndsIn
      (define (codes "GOARM_7") ++ (define (codes "GOARM_6") ++ define (codes "GOARM_5")))
      (asm_arch_defines goenv (codes "arm"))
    × EndsIn (asm_arch_defines goenv (codes "arm")) (define (codes "GOARM_5"))
    × EndsIn
        (define (codes "GOPPC64_power10")
          ++ (define (codes "GOPPC64_power9") ++ define (codes "GOPPC64_power8")))
        (asm_arch_defines goenv (codes "ppc64le"))
    × EndsIn (asm_arch_defines goenv (codes "ppc64le")) (define (codes "GOPPC64_power8"))
levels_here = asm_arch_defines_levels goenv
