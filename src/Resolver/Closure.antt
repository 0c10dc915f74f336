-- ===== src/Resolver/Closure.antt =====
-- transitiveClosure of go/go2nix/pkg/resolve/resolve.go: the packages that a main package needs. The
-- loop over the queue takes fuel: a package enters the queue once.
pub mod Search
pub mod Exact
use go2nix.Base.{
  ℕ, zero, suc, List, [], ◌∷◌, ◌++◌, Option, none, some, Text, text_eq, text_leb, any, length, Dict,
  lookup, keys, if◌then◌else◌,
}
use go2nix.Resolver.Package.{Package}

-- The variables of the loop.
pub record Walk : Type 0 where
  pub seen : List Text
  pub closure : List Package
  pub queue : List Package

-- `sort.Slice` by import path.
abbrev pub insert_package : Package → List Package → List Package
insert_package p [] = p ∷ []
insert_package p (q ∷ qs) =
    let rest = q ∷ insert_package p qs in
    if text_leb p.import_path q.import_path then p ∷ q ∷ qs else rest

unfoldable pub sort_packages : List Package → List Package
sort_packages [] = []
sort_packages (p ∷ ps) = insert_package p (sort_packages ps)

abbrev pub first_walk : Package → Walk
first_walk main_pkg = record {
  seen = main_pkg.import_path ∷ [];
  closure = main_pkg ∷ [];
  queue = main_pkg ∷ [];
}

module _ (graph : Dict Package) where
  abbrev pub add_dep : Text → Package → Walk → Walk
  add_dep imp dep w = record {
    seen = w.seen ++ imp ∷ [];
    closure = w.closure ++ dep ∷ [];
    queue = w.queue ++ dep ∷ [];
  }

  -- The body of the loop over the imports.
  unfoldable pub visit_import : Text → Walk → Walk
  visit_import imp w =
      if any (text_eq imp) w.seen
      then w
      else elim (lookup imp graph) [ none ↦ w | some dep ↦ add_dep imp dep w ]

  unfoldable pub visit_imports : List Text → Walk → Walk
  unfolding visit_import
  visit_imports [] w = w
  visit_imports (imp ∷ imports) w = visit_imports imports (visit_import imp w)

  unfoldable pub search_queue : ℕ → Walk → List Package
  unfolding visit_imports
  search_queue zero w = w.closure
  search_queue (suc fuel) w = elim w.queue [
    | [] ↦ w.closure
    | cur ∷ rest ↦ search_queue fuel (visit_imports cur.imports (record w { queue = rest }))
  ]

  unfoldable pub transitive_closure : Package → List Package
  unfolding search_queue sort_packages
  transitive_closure main_pkg =
      sort_packages (search_queue (suc (suc (length (keys graph)))) (first_walk main_pkg))
