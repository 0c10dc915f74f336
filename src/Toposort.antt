-- ===== src/Toposort.antt =====
-- go/go2nix/pkg/toposort/toposort.go: the depth-first topological sort.
-- The closure `visit` changes `state` and `result`, so it is a function of a record of the two.
-- It recurs on fuel, the depth of the recursion; `Toposort.Fuel` says how much is enough.
pub mod Invariant
pub mod Busy
pub mod Order
pub mod Fuel
mod Tests
pub mod Walk
pub mod Cycle
use go2nix.Base.{
  ℕ, zero, suc, List, [], ◌∷◌, ◌++◌, Option, none, some, Text, text_eq, sort, Dict, lookup, keys,
  Result, ok, err, ◌>>=◌, if◌then◌else◌,
}

-- The values of the map `state`; a key that the map does not hold is `unvisited`.
pub data Mark : Type 0 where
  unvisited visiting visited : Mark

pub data SortError : Type 0 where
  import_cycle : Text → SortError
  out_of_fuel : SortError

pub record State (T : Type 0) : Type 0 where
  pub mark : Text → Mark
  pub result : List T

abbrev pub set_mark : Text → Mark → (Text → Mark) → Text → Mark
set_mark key m marks k = if text_eq key k then m else marks k

abbrev pub option_list : {T : Type 0} → Option T → List T
option_list none = []
option_list (some node) = node ∷ []

module _ {T : Type 0} (nodes : Dict T) (deps : Text → List Text) where
  abbrev pub Visit : Type 0
  Visit = Text → State T → Result SortError (State T)

  -- state[key] = visiting
  pub begin : Text → State T → State T
  begin key s = record s { mark = set_mark key visiting s.mark }

  -- state[key] = visited, and the append of the node if there is one.
  pub finish : Text → State T → State T
  finish key s = record {
    mark = set_mark key visited s.mark;
    result = s.result ++ option_list (lookup key nodes);
  }

  -- A loop that calls `visit` and returns its first error.
  pub visit_all : Visit → List Text → State T → Result SortError (State T)
  visit_all go [] s = ok s
  visit_all go (key ∷ rest) s = go key s >>= visit_all go rest

  pub visit : ℕ → Text → State T → Result SortError (State T)
  visit zero key s = err out_of_fuel
  visit (suc fuel) key s = elim (s.mark key) [
    | visited ↦ ok s
    | visiting ↦ err (import_cycle key)
    | unvisited ↦ visit_all (visit fuel) (deps key) (begin key s) >>= λ s'. ok (finish key s')
  ]

  abbrev pub start : State T
  start = record { mark = λ _. unvisited; result = [] }

  unfoldable pub toposort : ℕ → Result SortError (List T)
  unfolding visit visit_all begin finish sort
  toposort fuel = visit_all (visit fuel) (sort (keys nodes)) start >>= λ s. ok s.result
