-- ===== src/TestRunner/Affected.antt =====
-- affectedLocalDeps of go/go2nix/pkg/testrunner/testrunner.go. The walk takes fuel for its depth, and
-- the loop over the queue for its rounds.
pub mod Reverse
pub mod Found
pub mod Exact
use go2nix.Base.{
  ℕ, zero, suc, List, [], ◌∷◌, ◌++◌, Bool, ◌||◌, Option, none, some, Text, text_eq, any, length,
  flat_map, Dict, lookup, keys, Result, ok, if◌then◌else◌,
}
use go2nix.Search.{walk_each, depth_walk}
use go2nix.Toposort.{SortError, toposort}
use go2nix.LocalPackages.{LocalPkg}

abbrev pub deps_or_none : Option LocalPkg → List Text
deps_or_none none = []
deps_or_none (some p) = p.local_deps

-- The variables of the loop over the queue; `affected` has the keys of the map.
pub record Spread : Type 0 where
  pub affected : List Text
  pub queue : List Text

abbrev pub add_affected : Text → Spread → Spread
add_affected k s = record { affected = s.affected ++ k ∷ []; queue = s.queue ++ k ∷ [] }

abbrev pub filter_texts : (Text → Bool) → List Text → List Text
filter_texts keep [] = []
filter_texts keep (k ∷ ks) = if keep k then k ∷ filter_texts keep ks else filter_texts keep ks

-- The identity map for the sort.
abbrev pub identity : List Text → Dict Text
identity [] = []
identity (k ∷ ks) = (k, k) ∷ identity ks

module _ (pkg_map : Dict LocalPkg) where
  abbrev pub local_deps_of : Text → List Text
  local_deps_of k = deps_or_none (lookup k pkg_map)

  -- What the walks need: more than the keys of the map, and those that they depend on.
  abbrev pub local_keys : List Text → List Text
  local_keys imports = imports ++ flat_map local_deps_of (keys pkg_map)

  unfoldable pub walk_forward : List Text → List Text
  unfolding depth_walk
  walk_forward imports =
      walk_each (λ reached. reached) (λ k reached. reached ++ k ∷ []) local_deps_of
        (depth_walk (λ reached. reached) (λ k reached. reached ++ k ∷ []) local_deps_of
          (suc (length (local_keys imports))))
        imports []

  -- `revDeps[cur]`: a package for each time that it has `cur` among its dependencies.
  abbrev pub rev_deps : Text → List Text
  rev_deps cur =
      flat_map (λ k. flat_map (λ dep. if text_eq dep cur then k ∷ [] else []) (local_deps_of k))
        (keys pkg_map)

  module _ (target : Text) (reachable : List Text) where
    -- The body of the loop over the packages that depend on one.
    unfoldable pub visit_rdep : Text → Spread → Spread
    visit_rdep rdep s =
        if text_eq rdep target
        then s
        else if any (text_eq rdep) s.affected
        then s
        else if any (text_eq rdep) reachable
        then add_affected rdep s
        else s

    unfoldable pub visit_rdeps : List Text → Spread → Spread
    unfolding visit_rdep
    visit_rdeps [] s = s
    visit_rdeps (rdep ∷ rest) s = visit_rdeps rest (visit_rdep rdep s)

    unfoldable pub spread : ℕ → Spread → List Text
    unfolding visit_rdeps
    spread zero s = s.affected
    spread (suc fuel) s = elim s.queue [
      | [] ↦ s.affected
      | cur ∷ rest ↦ spread fuel (visit_rdeps (rev_deps cur) (record s { queue = rest }))
    ]

    unfoldable pub affected_keys : List Text
    unfolding spread
    affected_keys =
        spread (suc (suc (length (keys pkg_map)))) (record { affected = []; queue = target ∷ [] })

  -- The dependencies that the sort is given.
  abbrev pub affected_deps : Text → List Text → Text → List Text
  affected_deps target affected k =
      filter_texts (λ d. any (text_eq d) affected || text_eq d target) (local_deps_of k)

  abbrev pub sort_affected : Text → List Text → Result SortError (List Text)
  unfolding toposort
  sort_affected target [] = ok []
  sort_affected target (k ∷ ks) =
      toposort (identity (k ∷ ks)) (affected_deps target (k ∷ ks)) (suc (suc (length (k ∷ ks))))

  unfoldable pub affected_local_deps : Text → List Text → Result SortError (List Text)
  unfolding walk_forward affected_keys toposort
  affected_local_deps target imports =
      sort_affected target (affected_keys target (walk_forward imports))
