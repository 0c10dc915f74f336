-- ===== src/Resolver/Inputs/Tests.antt =====
-- The search of the build inputs at two libraries that propagate one another.
use go2nix.Base.{
  [], ◌∷◌, ◌≡◌, refl, subst, ◌↔◌, inl, inr, Bool, Option, none, some, Text, codes, text_eq, arith,
  Memᴰ, if◌then◌else◌,
}
use mathlib.Core.List.Memᴰ
use go2nix.Toposort.Walk.{Reaches}
use go2nix.NixDrv.Derivation.Merge.{Distinct}
use go2nix.Resolver.Inputs.{propagates, discover_input_paths}
use go2nix.Resolver.Inputs.Exact.{HasDirs, discover_input_paths_exact}

abbrev propagated : Text → Option Text
propagated p =
    if text_eq p (codes "/x")
    then some (codes "/y /x")
    else if text_eq p (codes "/y")
    then some (codes " /x\n")
    else none

abbrev is_dir : Text → Bool
is_dir p = text_eq p (codes "/y/lib")

found_inputs : discover_input_paths is_dir propagated 3 (codes "/x" ∷ []) ≡ record {
  bin_dirs = [];
  pkg_config_dirs = [];
  include_dirs = [];
  lib_dirs = codes "/y/lib" ∷ [];
  all = codes "/x" ∷ codes "/y" ∷ [];
}
unfolding discover_input_paths
found_inputs = refl

closed_inputs :
    (p d : Text)
    → Memᴰ p (codes "/x" ∷ codes "/y" ∷ [])
    → Memᴰ d (propagates is_dir propagated p)
    → Memᴰ d (codes "/x" ∷ codes "/y" ∷ [])
closed_inputs p d m n = elim (Memᴰ.cases_cons m) [
  | inl e ↦ elim (Memᴰ.cases_cons (subst (λ q. Memᴰ d (propagates is_dir propagated q)) e n)) [
    | inl y ↦ Memᴰ.tail (Memᴰ.head y)
    | inr x ↦ elim (Memᴰ.cases_cons x) [
      | inl h ↦ Memᴰ.head h
      | inr none_there ↦ absurd (Memᴰ.not-nil none_there)
    ]
  ]
  | inr t ↦ elim (Memᴰ.cases_cons t) [
    | inl e ↦ elim (Memᴰ.cases_cons (subst (λ q. Memᴰ d (propagates is_dir propagated q)) e n)) [
      | inl h ↦ Memᴰ.head h
      | inr none_there ↦ absurd (Memᴰ.not-nil none_there)
    ]
    | inr none_there ↦ absurd (Memᴰ.not-nil none_there)
  ]
]

discover_input_paths_exact_example :
    ((q : Text)
      → Memᴰ q (discover_input_paths is_dir propagated 3 (codes "/x" ∷ [])).all
        ↔ ((r : Text) × Memᴰ r (codes "/x" ∷ []) × Reaches (propagates is_dir propagated) r q))
    × Distinct (discover_input_paths is_dir propagated 3 (codes "/x" ∷ [])).all
    × HasDirs is_dir propagated (discover_input_paths is_dir propagated 3 (codes "/x" ∷ []))
discover_input_paths_exact_example =
    discover_input_paths_exact is_dir propagated (codes "/x" ∷ codes "/y" ∷ []) (codes "/x" ∷ []) 3
      closed_inputs
      (λ p m. elim (Memᴰ.cases_cons m) [
        | inl e ↦ Memᴰ.head e
        | inr none_there ↦ absurd (Memᴰ.not-nil none_there)
      ])
      (omega arith)
