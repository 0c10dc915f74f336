-- ===== src/NixDrv/Aterm/Path.antt =====
-- The .drv path and the references of the .drv file.
use go2nix.Base.{
  ℕ, List, [], ◌∷◌, ◌++◌, ◌≡◌, refl, sym, ap, ap₂, ◌∙◌, subst, inl, inr, ◌⊎◌, ◌↔◌, ⊎_elim,
  Bool-cases, Option, some, Option-cases, Text, sort, sort-Memᴰ, Dict, lookup, keys, Memᴰ,
  Memᴰ-append, ok, ok_of_bind, ok_cancel,
}
use go2nix.NixDrv.Derivation.{Derivation, InputDrv}
use go2nix.NixDrv.Aterm.{
  GoDerivation, sorted_outputs, convert_outputs, to_go_nix_derivation, is_fod, fill_paths, fill_fod,
  drv_path, references, aterm,
}

-- What filling in output paths leaves alone.
abbrev SameInputs : GoDerivation → GoDerivation → Type 0
SameInputs d e =
    (e.name ≡ d.name)
    × (e.input_sources ≡ d.input_sources)
    × (keys e.input_derivations ≡ keys d.input_derivations)

fill_paths-SameInputs :
    (paths : Dict Text) (d e : GoDerivation) → fill_paths paths d ≡ ok e → SameInputs d e
unfolding fill_paths
fill_paths-SameInputs [] d e h =
    let same : e ≡ d = cc in subst (SameInputs d) (sym same) (refl, refl, refl)
fill_paths-SameInputs ((name, path) ∷ rest) d e h = elim (Option-cases (lookup name d.outputs)) [
  | inl n ↦ cc (rw (n, fill_paths) at h)
  | inr (o, n) ↦ fill_paths-SameInputs rest _ e (rw (n, fill_paths) at h)
]

module _ (calculate_output_paths : GoDerivation → Option (Dict Text)) where
  fill_fod-SameInputs :
      (d e : GoDerivation) → fill_fod calculate_output_paths d ≡ ok e → SameInputs d e
  unfolding fill_fod
  fill_fod-SameInputs d e h = elim (Bool-cases (is_fod d)) [
    | inl f ↦ elim (Option-cases (calculate_output_paths d)) [
      | inl n ↦ cc (rw (f, n, fill_fod) at h)
      | inr (paths, n) ↦ fill_paths-SameInputs paths d e (rw (f, n, fill_fod) at h)
    ]
    | inr f ↦
        let same : ok d ≡ ok e = rw (f, fill_fod) at h in
        let back : e ≡ d = cc in subst (SameInputs d) (sym back) (refl, refl, refl)
  ]

keys-sorted_outputs : (drvs : Dict InputDrv) → keys (sorted_outputs drvs) ≡ keys drvs
keys-sorted_outputs [] = refl
keys-sorted_outputs ((path, drv) ∷ rest) = ap (λ ks. path ∷ ks) (keys-sorted_outputs rest)

module _ (parse_any : Text → Option (Text × List ℕ)) where
  to_go_nix_derivation_inputs :
      (d : Derivation) (g : GoDerivation)
      → to_go_nix_derivation parse_any d ≡ ok g
      → (g.name ≡ d.name)
        × (g.input_sources ≡ sort (keys d.input_srcs))
        × (keys g.input_derivations ≡ keys d.input_drvs)
  unfolding to_go_nix_derivation
  to_go_nix_derivation_inputs d g h =
      let record { value = outputs; came = c; went = w } =
        ok_of_bind _ (convert_outputs parse_any d.outputs) h in
      subst
        (λ x.
          (x.name ≡ d.name)
          × (x.input_sources ≡ sort (keys d.input_srcs))
          × (keys x.input_derivations ≡ keys d.input_drvs))
        (ok_cancel w) (refl, refl, keys-sorted_outputs d.input_drvs)

module _ (calculate_output_paths : GoDerivation → Option (Dict Text))
    (parse_any : Text → Option (Text × List ℕ))
    (write_derivation : GoDerivation → Option Text) where
  -- What a run of ATerm that succeeds goes through.
  aterm_steps :
      (d : Derivation) (text : Text) (refs : List Text)
      → aterm calculate_output_paths parse_any write_derivation d ≡ ok (text, refs)
      → (converted : GoDerivation) × (filled : GoDerivation) × (to_go_nix_derivation parse_any d
          ≡ ok converted)
        × (fill_fod calculate_output_paths converted ≡ ok filled)
        × (write_derivation filled ≡ some text)
        × (refs ≡ references calculate_output_paths parse_any filled)
  unfolding aterm
  aterm_steps d text refs h =
      let record { value = converted; came = c; went = w } =
        ok_of_bind _ (to_go_nix_derivation parse_any d) h in
      let record { value = filled; came = f; went = v } =
        ok_of_bind _ (fill_fod calculate_output_paths converted) w in
      elim (Option-cases (write_derivation filled)) [
        | inl n ↦ cc (rw n at v)
        | inr (t, n) ↦
            let same : ok (t, references calculate_output_paths parse_any filled)
                ≡ ok (text, refs) =
              rw n at v in
            (
              converted,
              filled,
              c,
              f,
              n ∙ ap (λ x. some x.0) (ok_cancel same),
              sym (ap (λ x. x.1) (ok_cancel same)),
            )
      ]

  -- A .drv file refers to the input sources and the input derivations, and to nothing else.
  pub aterm_references :
      (d : Derivation) (text : Text) (refs : List Text) (r : Text)
      → aterm calculate_output_paths parse_any write_derivation d ≡ ok (text, refs)
      → Memᴰ r refs ↔ (Memᴰ r (keys d.input_srcs) ⊎ Memᴰ r (keys d.input_drvs))
  aterm_references d text refs r h =
      let (converted, filled, c, f, _, e) = aterm_steps d text refs h in
      let (_, sources, drvs) = to_go_nix_derivation_inputs parse_any d converted c in
      let (_, sources', drvs') = fill_fod-SameInputs calculate_output_paths converted filled f in
      let same : refs ≡ sort (sort (keys d.input_srcs) ++ keys d.input_drvs) =
        e ∙ ap₂ (λ x y. sort (x ++ y)) (sources' ∙ sources) (drvs' ∙ drvs) in
      let sorted = sort-Memᴰ r (sort (keys d.input_srcs) ++ keys d.input_drvs) in
      let joined = Memᴰ-append r (sort (keys d.input_srcs)) (keys d.input_drvs) in
      let srcs = sort-Memᴰ r (keys d.input_srcs) in
      rw same (
        (λ m. ⊎_elim (λ n. inl (srcs.0 n)) inr (joined.0 (sorted.0 m))),
        (λ k. sorted.1 (joined.1 (⊎_elim (λ n. inl (srcs.1 n)) inr k))),
      )

  -- Where go-nix takes the path of a derivation from its name, its text and its references, as Nix
  -- does for a file that it adds, DrvPath gives the path of the file whose text and references
  -- ATerm gives, also for a fixed-output derivation.
  pub drv_path-aterm :
      (go_drv_path : GoDerivation → Option Text) (text_path : Text → Text → List Text → Text)
      (d : Derivation) (text : Text) (refs : List Text)
      → ((g : GoDerivation) (t : Text)
          → write_derivation g ≡ some t
          → go_drv_path g
            ≡ some (text_path g.name t (references calculate_output_paths parse_any g)))
      → aterm calculate_output_paths parse_any write_derivation d ≡ ok (text, refs)
      → drv_path calculate_output_paths parse_any go_drv_path d ≡ ok (text_path d.name text refs)
  unfolding drv_path
  drv_path-aterm go_drv_path text_path d text refs paths h =
      let (converted, filled, c, f, w, e) = aterm_steps d text refs h in
      let (named, _, _) = to_go_nix_derivation_inputs parse_any d converted c in
      let (named', _, _) = fill_fod-SameInputs calculate_output_paths converted filled f in
      rw (c, f, paths filled text w, named' ∙ named, e) refl
