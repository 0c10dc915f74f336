-- ===== src/Toolchain/Concurrency.antt =====
-- How many jobs and backend workers run at once.
use go2nix.Base.{
  ℕ, ◌+◌, ◌≤◌, ◌<◌, min, List, [], ◌∷◌, ◌≡◌, Option, none, some, inl, inr, Bool-cases, Text, codes,
  text_eq, ltb, leb, leb→le, subst, sym, ◌&&◌, ℤ, pos, negsuc, atoi, if◌then◌else◌, arith,
}

abbrev pub cores_of : Option ℤ → ℕ → ℕ
cores_of none gomaxprocs = gomaxprocs
cores_of (some (negsuc n)) gomaxprocs = gomaxprocs
cores_of (some (pos n)) gomaxprocs = if ltb 0 n && ltb n gomaxprocs then n else gomaxprocs

unfoldable pub build_cores : Text → ℕ → ℕ
unfolding atoi
build_cores nix_build_cores gomaxprocs = cores_of (atoi nix_build_cores) gomaxprocs

abbrev pub base_backend_concurrency : ℕ
base_backend_concurrency = 4

abbrev pub large_package_bytes : ℕ
large_package_bytes = 1048576

abbrev pub max_backend_concurrency : ℕ
max_backend_concurrency = 16

unfoldable pub backend_concurrency : ℕ → ℕ → ℕ
backend_concurrency cores source_bytes =
    if leb large_package_bytes source_bytes
    then min cores max_backend_concurrency
    else min cores base_backend_concurrency

-- The sizes of the Go files; `none` is a file that `os.Stat` does not find.
unfoldable pub go_source_bytes : List (Option ℕ) → ℕ
go_source_bytes [] = 0
go_source_bytes (none ∷ rest) = go_source_bytes rest
go_source_bytes (some size ∷ rest) = size + go_source_bytes rest

-- The value of GO19CONCURRENTCOMPILATION, the cores and the sizes of the Go files.
unfoldable pub gc_backend_concurrency : Text → ℕ → List (Option ℕ) → ℕ
unfolding backend_concurrency go_source_bytes
gc_backend_concurrency variable cores files =
    if text_eq variable (codes "0")
    then 1
    else if text_eq variable (codes "1")
    then backend_concurrency cores (go_source_bytes files)
    else if text_eq variable []
    then backend_concurrency cores (go_source_bytes files)
    else 1

cores_of_bounds :
    (parsed : Option ℤ) (gomaxprocs : ℕ)
    → 1 ≤ gomaxprocs
    → (1 ≤ cores_of parsed gomaxprocs)
      × (cores_of parsed gomaxprocs ≤ gomaxprocs)
      × ((n : ℕ) → parsed ≡ some (pos n) → 1 ≤ n → cores_of parsed gomaxprocs ≡ min n gomaxprocs)
cores_of_bounds none gomaxprocs h = (h, omega arith, λ n e k. cc)
cores_of_bounds (some (negsuc m)) gomaxprocs h = (h, omega arith, λ n e k. cc)
cores_of_bounds (some (pos m)) gomaxprocs h = (
  ground arith,
  ground arith,
  λ n e k.
      subst (λ x. cores_of (some (pos m)) gomaxprocs ≡ min x gomaxprocs) (pos_cancel e)
        (exact (subst (λ x. 1 ≤ x) (sym (pos_cancel e)) k)),
)
  where
    pos_cancel : {n : ℕ} → ◌≡◌ {A = Option ℤ} (some (pos m)) (some (pos n)) → m ≡ n
    pos_cancel e = cc

    exact : 1 ≤ m → cores_of (some (pos m)) gomaxprocs ≡ min m gomaxprocs
    exact k = elim (Bool-cases (ltb m gomaxprocs)) [ inl e ↦ ground arith | inr e ↦ ground arith ]

-- A number of workers for so many jobs and bytes.
abbrev pub Fits : ℕ → ℕ → ℕ → Type 0
Fits cores bytes workers =
    (1 ≤ workers) × (workers ≤ cores) × (workers ≤ 16) × (bytes < large_package_bytes → workers ≤ 4)

backend_concurrency-Fits :
    (cores bytes : ℕ) → 1 ≤ cores → Fits cores bytes (backend_concurrency cores bytes)
unfolding backend_concurrency
backend_concurrency-Fits cores bytes h = elim (Bool-cases (leb large_package_bytes bytes)) [
  | inl e ↦ rw e (
    omega arith,
    omega arith,
    omega arith,
    λ small. absurd (omega (arith, leb→le large_package_bytes bytes e, small)),
  )
  | inr e ↦ rw e (omega arith, omega arith, omega arith, λ small. omega arith)
]

gc_backend_concurrency-Fits :
    (variable : Text) (cores : ℕ) (files : List (Option ℕ))
    → 1 ≤ cores
    → Fits cores (go_source_bytes files) (gc_backend_concurrency variable cores files)
unfolding gc_backend_concurrency
gc_backend_concurrency-Fits variable cores files h =
    elim (Bool-cases (text_eq variable (codes "0"))) [
      | inl a ↦ rw a one
      | inr a ↦ elim (Bool-cases (text_eq variable (codes "1"))) [
        | inl b ↦ rw (a, b) several
        | inr b ↦ elim (Bool-cases (text_eq variable [])) [
          | inl c ↦ rw (a, b, c) several
          | inr c ↦ rw (a, b, c) one
        ]
      ]
    ]
  where
    one : Fits cores (go_source_bytes files) 1
    one = (omega arith, h, omega arith, λ _. omega arith)

    several : Fits cores (go_source_bytes files) (backend_concurrency cores (go_source_bytes files))
    several = backend_concurrency-Fits cores (go_source_bytes files) h

-- A build runs as many jobs as Nix grants it, and at most GOMAXPROCS, at least one of them. A
-- compile gets at least one backend worker, and at most as many as the build runs jobs, 16, and
-- 4 if the package has less than 1 MiB of Go source.
pub gc_backend_concurrency_bounds :
    (nix_build_cores variable : Text) (gomaxprocs : ℕ) (files : List (Option ℕ))
    → 1 ≤ gomaxprocs
    → (1 ≤ build_cores nix_build_cores gomaxprocs)
      × (build_cores nix_build_cores gomaxprocs ≤ gomaxprocs)
      × ((n : ℕ)
          → atoi nix_build_cores ≡ some (pos n)
          → 1 ≤ n
          → build_cores nix_build_cores gomaxprocs ≡ min n gomaxprocs)
      × Fits
          (build_cores nix_build_cores gomaxprocs)
          (go_source_bytes files)
          (gc_backend_concurrency variable (build_cores nix_build_cores gomaxprocs) files)
unfolding build_cores
gc_backend_concurrency_bounds nix_build_cores variable gomaxprocs files h =
    let (some_core, enough, granted) = cores_of_bounds (atoi nix_build_cores) gomaxprocs h in
    (
      some_core,
      enough,
      granted,
      gc_backend_concurrency-Fits variable (build_cores nix_build_cores gomaxprocs) files some_core,
    )
