-- ===== src/Search.antt =====
-- Depth-first walks that mark what they come to, as closures that Go code calls `walk` make them: in
-- discoverInputPaths of go/go2nix/pkg/resolve/resolve.go and in affectedLocalDeps of
-- go/go2nix/pkg/testrunner/testrunner.go. They recur on fuel for the depth.
pub mod Exact
use go2nix.Base.{ℕ, zero, suc, List, [], ◌∷◌, Text, text_eq, any, if◌then◌else◌}

-- `marked` is what a state has marked, and `mark` marks one more.
module _ {State : Type 0} (marked : State → List Text) (mark : Text → State → State)
    (next : Text → List Text) where
  abbrev pub walk_each : (Text → State → State) → List Text → State → State
  walk_each go [] s = s
  walk_each go (p ∷ rest) s = walk_each go rest (go p s)

  unfoldable pub depth_walk : ℕ → Text → State → State
  depth_walk zero p s = s
  depth_walk (suc fuel) p s =
      let followed = walk_each (depth_walk fuel) (next p) (mark p s) in
      if any (text_eq p) (marked s) then s else followed
