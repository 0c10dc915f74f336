-- ===== src/CgoFlags/Safe.antt =====
-- Prefixes that no accepted flag has: flags that load code into the compiler or the linker, choose
-- other tools, or read arguments from a file.
use go2nix.Base.{
  List, [], ◌∷◌, ◌++◌, ◌≡◌, refl, sym, ◌⊎◌, subst, Bool, true, false, Bool-cases, and-eq-true, inl,
  inr, none, Text, codes, has_prefix, all, All, ok, ok_of_bind, Memᴰ,
}
use mathlib.Core.List.Memᴰ
use go2nix.CgoFlags.Prefix.{admits}
use go2nix.CgoFlags.Check.{
  safe_arg, Environment, Tables, load_pattern, check_args, check_flags, compiler_tables,
  linker_tables, check_compiler_flags, check_linker_flags, flto_check,
  check_compiler_flags_for_internal_link,
}
use go2nix.CgoFlags.Refuse.{screens, Screened-of_screens, check_args-Lacks}

abbrev pub Lacks : Text → Text → Type 0
Lacks p arg = has_prefix arg p ≡ false

abbrev pub refused_compiler_prefixes : List Text
refused_compiler_prefixes =
    codes "@"
    ∷ codes "-fplugin"
    ∷ codes "-B"
    ∷ codes "-specs"
    ∷ codes "-wrapper"
    ∷ codes "-Xclang"
    ∷ codes "-Xpreprocessor"
    ∷ codes "-imacros"
    ∷ codes "-load"
    ∷ codes "-o"
    ∷ codes "-Wa,-a"
    ∷ []

abbrev pub refused_linker_prefixes : List Text
refused_linker_prefixes =
    codes "@"
    ∷ codes "-fplugin"
    ∷ codes "-B"
    ∷ codes "-specs"
    ∷ codes "-T"
    ∷ codes "-Xlinker"
    ∷ codes "-fuse-ld"
    ∷ codes "-o"
    ∷ codes "-Wl,@"
    ∷ codes "-Wl,-plugin"
    ∷ codes "-Wl,--plugin"
    ∷ codes "-Wl,-T"
    ∷ codes "-Wl,--script"
    ∷ codes "-Wl,--version-script"
    ∷ codes "-Wl,-dynamic-linker"
    ∷ codes "-Wl,-init"
    ∷ []

compiler_screened : all (screens compiler_tables) refused_compiler_prefixes ≡ true
unfolding admits safe_arg
compiler_screened = refl

linker_screened : all (screens linker_tables) refused_linker_prefixes ≡ true
unfolding admits safe_arg
linker_screened = refl

all-Memᴰ : (f : Text → Bool) (xs : List Text) {x : Text} → Memᴰ x xs → all f xs ≡ true → f x ≡ true
all-Memᴰ f [] m h = absurd (Memᴰ.not-nil m)
all-Memᴰ f (y ∷ xs) {x} m h =
    let (first, rest) = and-eq-true (f y) (all f xs) h in
    elim (Memᴰ.cases_cons m) [ inl e ↦ rw e first | inr n ↦ all-Memᴰ f xs n rest ]

load_unset :
    (env : Environment) (variable : Text)
    → env.getenv variable ≡ []
    → load_pattern env variable ≡ ok none
load_unset env variable h = rw h

-- With no pattern to allow more, a list that checkFlags accepts lacks every prefix that the tables
-- are screened for.
check_flags-Lacks :
    (env : Environment) (name source : Text) (list : List Text) (t : Tables) (overrides : Bool)
    (p : Text)
    → screens t p ≡ true
    → (overrides ≡ false) ⊎ (env.getenv (codes "CGO_" ++ (name ++ codes "_ALLOW")) ≡ [])
    → check_flags env name source list t overrides ≡ ok tt
    → All (Lacks p) list
unfolding check_flags
check_flags-Lacks env name source list t false p s o h =
    check_args-Lacks source t none p (Screened-of_screens t p s) list h
check_flags-Lacks env name source list t true p s (inl o) h = cc
check_flags-Lacks env name source list t true p s (inr o) h =
    let record { value = allow; came = a; went = b } = ok_of_bind _ (load_pattern env _) h in
    let record { value = disallow; came = c; went = d } = ok_of_bind _ (load_pattern env _) b in
    let none_allowed : allow ≡ none =
      cc (load_unset env (codes "CGO_" ++ (name ++ codes "_ALLOW")) o) in
    check_args-Lacks source t disallow p (Screened-of_screens t p s) list
      (subst (λ x. check_args source t x disallow list ≡ ok tt) none_allowed d)

-- No flag that the compiler check accepts begins with one of these prefixes, whatever the
-- CGO_*_DISALLOW variable says, unless CGO_*_ALLOW is set. That holds of the arguments that the
-- check takes together with the flag before them, too.
pub check_compiler_flags-Lacks :
    (env : Environment) (name source : Text) (list : List Text) (p : Text)
    → Memᴰ p refused_compiler_prefixes
    → env.getenv (codes "CGO_" ++ (name ++ codes "_ALLOW")) ≡ []
    → check_compiler_flags env name source list ≡ ok tt
    → All (Lacks p) list
unfolding check_compiler_flags
check_compiler_flags-Lacks env name source list p m o h =
    check_flags-Lacks env name source list compiler_tables true p
      (all-Memᴰ (screens compiler_tables) refused_compiler_prefixes m compiler_screened) (inr o) h

-- The same of the linker check and the linker's prefixes, the ones that hand an option on to the
-- linker by -Wl among them.
pub check_linker_flags-Lacks :
    (env : Environment) (name source : Text) (list : List Text) (p : Text)
    → Memᴰ p refused_linker_prefixes
    → env.getenv (codes "CGO_" ++ (name ++ codes "_ALLOW")) ≡ []
    → check_linker_flags env name source list ≡ ok tt
    → All (Lacks p) list
unfolding check_linker_flags
check_linker_flags-Lacks env name source list p m o h =
    check_flags-Lacks env name source list linker_tables true p
      (all-Memᴰ (screens linker_tables) refused_linker_prefixes m linker_screened) (inr o) h

flto_check-Lacks : (list : List Text) → flto_check list ≡ ok tt → All (Lacks (codes "-flto")) list
flto_check-Lacks [] h = tt
flto_check-Lacks (flag ∷ rest) h = elim (Bool-cases (has_prefix flag (codes "-flto"))) [
  | inl e ↦ cc (rw e at h)
  | inr e ↦ (e, flto_check-Lacks rest (rw e at h))
]

-- A list of flags that leaves the link internal has no flag that begins with -flto, and none that
-- begins with a prefix that the compiler check refuses, whatever the environment says.
pub check_compiler_flags_for_internal_link-Lacks :
    (env : Environment) (name source : Text) (list : List Text) (p : Text)
    → Memᴰ p (codes "-flto" ∷ refused_compiler_prefixes)
    → check_compiler_flags_for_internal_link env name source list ≡ ok tt
    → All (Lacks p) list
unfolding check_compiler_flags_for_internal_link
check_compiler_flags_for_internal_link-Lacks env name source list p m h =
    let record { value = _; came = a; went = b } =
      ok_of_bind (λ _. flto_check list) (check_flags env name source list compiler_tables false)
        h in
    elim (Memᴰ.cases_cons m) [
      | inl e ↦ subst (λ x. All (Lacks x) list) (sym e) (flto_check-Lacks list b)
      | inr n ↦
          check_flags-Lacks env name source list compiler_tables false p
            (all-Memᴰ (screens compiler_tables) refused_compiler_prefixes n compiler_screened)
            (inl refl) a
    ]
