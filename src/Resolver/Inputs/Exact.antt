-- ===== src/Resolver/Inputs/Exact.antt =====
-- The walk finds what store paths propagate, each path once, with its directories.
use go2nix.Base.{
  ℕ, ◌<◌, List, [], ◌∷◌, ◌++◌, ◌≡◌, refl, sym, ap, ◌∙◌, append-nil, append_assoc, ◌↔◌, Bool, Option,
  Text, codes, length, flat_map, Memᴰ,
}
use go2nix.Toposort.Walk.{Reaches}
use go2nix.NixDrv.Derivation.Merge.{Distinct}
use go2nix.Search.Exact.{walk_each_exact, walk_each_keeps, depth_walk_keeps}
use go2nix.Resolver.Inputs.{
  InputPaths, no_inputs, if_dir, add_path, propagates, walk, discover_input_paths,
}

module _ (is_dir : Text → Bool) (propagated : Text → Option Text) where
  abbrev next : Text → List Text
  next = propagates is_dir propagated

  -- The directories of the paths of All, in its order.
  pub record HasDirs (found : InputPaths) : Type 0 where
    pub bin_dirs :
        found.bin_dirs ≡ flat_map (λ p. if_dir is_dir propagated (p ++ codes "/bin")) found.all
    pub include_dirs :
        found.include_dirs
        ≡ flat_map (λ p. if_dir is_dir propagated (p ++ codes "/include")) found.all
    pub lib_dirs :
        found.lib_dirs ≡ flat_map (λ p. if_dir is_dir propagated (p ++ codes "/lib")) found.all

  flat_map-snoc :
      (f : Text → List Text) (ps : List Text) (p : Text)
      → flat_map f (ps ++ p ∷ []) ≡ flat_map f ps ++ f p
  flat_map-snoc f [] p = append-nil (f p)
  flat_map-snoc f (q ∷ ps) p =
      ap (λ l. f q ++ l) (flat_map-snoc f ps p) ∙ sym (append_assoc (f q) (flat_map f ps) (f p))

  add_path-HasDirs :
      (p : Text) (found : InputPaths) → HasDirs found → HasDirs (add_path is_dir propagated p found)
  unfolding add_path
  add_path-HasDirs p found h = record {
    bin_dirs =
        ap (λ l. l ++ if_dir is_dir propagated (p ++ codes "/bin")) h.bin_dirs
        ∙ sym (flat_map-snoc _ found.all p);
    include_dirs =
        ap (λ l. l ++ if_dir is_dir propagated (p ++ codes "/include")) h.include_dirs
        ∙ sym (flat_map-snoc _ found.all p);
    lib_dirs =
        ap (λ l. l ++ if_dir is_dir propagated (p ++ codes "/lib")) h.lib_dirs
        ∙ sym (flat_map-snoc _ found.all p);
  }

  add_path-all :
      (p : Text) (found : InputPaths)
      → (add_path is_dir propagated p found).all ≡ found.all ++ p ∷ []
  unfolding add_path
  add_path-all p found = refl

  -- With more fuel than there are store paths, All is the paths that the given ones come to by
  -- propagated inputs, the given ones among them, each once, and BinDirs, IncludeDirs and LibDirs are
  -- the directories of that name in them that are there, in the order of All.
  pub discover_input_paths_exact :
      (universe paths : List Text) (fuel : ℕ)
      → ((p d : Text) → Memᴰ p universe → Memᴰ d (propagates is_dir propagated p) → Memᴰ d universe)
      → ((p : Text) → Memᴰ p paths → Memᴰ p universe)
      → length universe < fuel
      → ((q : Text)
          → Memᴰ q (discover_input_paths is_dir propagated fuel paths).all
            ↔ ((r : Text) × Memᴰ r paths × Reaches (propagates is_dir propagated) r q))
        × Distinct (discover_input_paths is_dir propagated fuel paths).all
        × HasDirs (discover_input_paths is_dir propagated fuel paths)
  unfolding discover_input_paths walk
  discover_input_paths_exact universe paths fuel closed inside enough =
      let mark = add_path is_dir propagated in
      let (exact, distinct) =
        walk_each_exact (λ found. found.all) mark next add_path-all universe closed fuel paths
          no_inputs inside enough refl in
      (
        exact,
        distinct,
        walk_each_keeps (λ found. found.all) mark next HasDirs add_path-HasDirs
            (walk is_dir propagated fuel)
            (depth_walk_keeps (λ found. found.all) mark next HasDirs add_path-HasDirs fuel) paths
            no_inputs (record { bin_dirs = refl; include_dirs = refl; lib_dirs = refl }),
      )
