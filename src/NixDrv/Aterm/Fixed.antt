-- ===== src/NixDrv/Aterm/Fixed.antt =====
-- Which derivations are fixed-output ones.
use go2nix.Base.{
  ℕ, List, [], ◌∷◌, ◌++◌, ◌≡◌, ◌≢◌, refl, sym, ap, ◌∙◌, subst, inl, inr, ◌↔◌, true, false,
  Bool-cases, Option, some, Option-cases, Text, codes, text_eq, text_eq_iff, Text-cases, Dict, ok,
  ok_of_bind, ok_cancel, arith, length,
}
use go2nix.NixDrv.Names.{hex}
use go2nix.NixDrv.Derivation.{Output, Derivation}
use go2nix.NixDrv.Aterm.{
  GoOutput, GoDerivation, method_prefix, parse_sri_hash, convert_hashed, convert_output,
  convert_outputs, to_go_nix_derivation, has_hash, single_with_hash, is_fod,
}

-- An output of AddFODOutput: a method and a hash.
abbrev pub IsFixed : Output → Type 0
IsFixed o = (o.hash_algo ≡ []) × (o.hash ≢ []) × (o.method ≢ [])

-- Whether there is one output, `out`, and it is fixed.
abbrev pub OnlyFixed : Dict Output → Type 0
OnlyFixed os = (o : Output) × (os ≡ (codes "out", o) ∷ []) × IsFixed o

empty_false : (s : Text) → s ≢ [] → text_eq s [] ≡ false
empty_false [] h = absurd (h refl)
empty_false (x ∷ s) h = refl

not_empty : (s : Text) → text_eq s [] ≡ false → s ≢ []
not_empty s e h = cc ((text_eq_iff s []).1 h)

append-not_empty : (a b : Text) → b ≢ [] → (a ++ b) ≢ []
append-not_empty [] b h e = h e
append-not_empty (x ∷ a) b h e = cc

hex-not_empty : (digest : List ℕ) → digest ≢ [] → hex digest ≢ []
hex-not_empty [] h e = h refl
hex-not_empty (v ∷ digest) h e = cc

-- A hash that nixhash parses has an algorithm and a digest.
abbrev pub Parses : (Text → Option (Text × List ℕ)) → Type 0
Parses parse_any =
    (sri algo : Text) (digest : List ℕ)
    → parse_any sri ≡ some (algo, digest)
    → (algo ≢ []) × (digest ≢ [])

no_hash :
    (path algorithm : Text)
    → has_hash (some (record { path = path; hash_algorithm = algorithm; hash = [] })) ≢ true
no_hash path algorithm h = ground arith

both_set :
    (path algorithm hash : Text)
    → algorithm ≢ []
    → hash ≢ []
    → has_hash (some (record { path = path; hash_algorithm = algorithm; hash = hash })) ≡ true
both_set path algorithm hash a h = rw (empty_false algorithm a, empty_false hash h) refl

cons_cancel : {A : Type 0} {x y : A} {xs ys : List A} → x ∷ xs ≡ y ∷ ys → x ≡ y
cons_cancel e = cc

single_named :
    (name : Text) (c : GoOutput)
    → (single_with_hash ((name, c) ∷ []) ≡ true)
      ↔ ((name ≡ codes "out") × (has_hash (some c) ≡ true))
single_named name c = elim (Text-cases name (codes "out")) [
  | inl e ↦ rw ((text_eq_iff name (codes "out")).1 e) (λ t. (e, t), λ p. p.1)
  | inr e ↦ rw e (λ t. cc, λ p. cc ((text_eq_iff name (codes "out")).1 p.0))
]

module _ (parse_any : Text → Option (Text × List ℕ)) (parses : Parses parse_any) where
  convert_hashed-IsFixed :
      (prefix : Text) (o : Output) (c : GoOutput)
      → convert_hashed parse_any prefix o ≡ ok c
      → (has_hash (some c) ≡ true) ↔ ((o.hash_algo ≡ []) × (o.hash ≢ []))
  unfolding convert_hashed parse_sri_hash
  convert_hashed-IsFixed prefix o c h = elim (Bool-cases (text_eq o.hash_algo [])) [
    | inr a ↦
        subst (λ x. (has_hash (some x) ≡ true) ↔ ((o.hash_algo ≡ []) × (o.hash ≢ [])))
          (ok_cancel (rw (a, convert_hashed) at h))
          (
            λ t. absurd (no_hash [] (prefix ++ o.hash_algo) t),
            λ fixed. absurd (not_empty o.hash_algo a fixed.0),
          )
    | inl a ↦ elim (Bool-cases (text_eq o.hash [])) [
      | inl b ↦
          subst (λ x. (has_hash (some x) ≡ true) ↔ ((o.hash_algo ≡ []) × (o.hash ≢ [])))
            (ok_cancel (rw (a, b, convert_hashed) at h))
            (λ t. absurd (no_hash [] [] t), λ fixed. absurd (fixed.1 ((text_eq_iff o.hash []).0 b)))
      | inr b ↦ elim (Option-cases (parse_any o.hash)) [
        | inl n ↦ cc (rw (a, b, n, convert_hashed, parse_sri_hash) at h)
        | inr ((algo, digest), n) ↦
            let (named, some_digest) = parses o.hash algo digest n in
            subst (λ x. (has_hash (some x) ≡ true) ↔ ((o.hash_algo ≡ []) × (o.hash ≢ [])))
              (ok_cancel (rw (a, b, n, convert_hashed, parse_sri_hash) at h))
              (
                λ _. ((text_eq_iff o.hash_algo []).0 a, not_empty o.hash b),
                λ _.
                    both_set [] (prefix ++ algo) (hex digest) (append-not_empty prefix algo named)
                      (hex-not_empty digest some_digest),
              )
      ]
    ]
  ]

  convert_output-IsFixed :
      (o : Output) (c : GoOutput)
      → convert_output parse_any o ≡ ok c
      → (has_hash (some c) ≡ true) ↔ IsFixed o
  unfolding convert_output
  convert_output-IsFixed o c h = elim (Option-cases (method_prefix o.method)) [
    | inl n ↦ elim (Bool-cases (text_eq o.method [])) [
      | inr e ↦ cc (rw (n, e, convert_output) at h)
      | inl e ↦
          subst (λ x. (has_hash (some x) ≡ true) ↔ IsFixed o)
            (ok_cancel (rw (n, e, convert_output) at h))
            (
              λ t. absurd (no_hash o.path [] t),
              λ fixed. absurd (fixed.2 ((text_eq_iff o.method []).0 e)),
            )
    ]
    | inr (prefix, n) ↦
        let (to, from) = convert_hashed-IsFixed prefix o c (rw (n, convert_output) at h) in
        (
          λ t. ((to t).0, (to t).1, λ e. cc (sym n ∙ ap method_prefix e)),
          λ fixed. from (fixed.0, fixed.1),
        )
  ]

  convert_outputs-IsFixed :
      (os : Dict Output) (cs : Dict GoOutput)
      → convert_outputs parse_any os ≡ ok cs
      → (single_with_hash cs ≡ true) ↔ OnlyFixed os
  unfolding convert_outputs
  convert_outputs-IsFixed [] cs h =
      subst (λ x. (single_with_hash x ≡ true) ↔ OnlyFixed []) (ok_cancel h)
        (λ t. cc, λ (_, e, _). absurd (omega (arith, ap length e)))
  convert_outputs-IsFixed ((name, o) ∷ []) cs h =
      let record { value = c; came = came; went = went } =
        ok_of_bind _ (convert_output parse_any o) h in
      let (to, from) = single_named name c in
      let (fixed_to, fixed_from) = convert_output-IsFixed o c came in
      subst (λ x. (single_with_hash x ≡ true) ↔ OnlyFixed ((name, o) ∷ [])) (ok_cancel went)
        (
          λ t. (o, ap (λ n. (n, o) ∷ []) (to t).0, fixed_to (to t).1),
          λ (p, e, fixed).
              let entry : (name, o) ≡ (codes "out", p) = cons_cancel e in
              let named : name ≡ codes "out" = ap (λ x. x.0) entry in
              let same : p ≡ o = sym (ap (λ x. x.1) entry) in
              from (named, fixed_from (subst IsFixed same fixed)),
        )
  convert_outputs-IsFixed ((name, o) ∷ second ∷ rest) cs h =
      let record { value = c; came = _; went = went } =
        ok_of_bind _ (convert_output parse_any o) h in
      let record { value = others; came = came; went = last } =
        ok_of_bind _ (convert_outputs parse_any (second ∷ rest)) went in
      let record { value = c'; came = _; went = went' } =
        ok_of_bind _ (convert_output parse_any second.1) came in
      let record { value = others'; came = _; went = last' } =
        ok_of_bind _ (convert_outputs parse_any rest) went' in
      let shape : (name, c) ∷ (second.0, c') ∷ others' ≡ cs =
        ap (λ os. (name, c) ∷ os) (ok_cancel last') ∙ ok_cancel last in
      subst (λ x. (single_with_hash x ≡ true) ↔ OnlyFixed ((name, o) ∷ second ∷ rest)) shape
        (λ t. cc, λ (_, e, _). absurd (omega (arith, ap length e)))

-- A derivation is a fixed-output one exactly when its only output is `out`, with a method and a
-- hash, and without a hash algorithm of its own.
pub is_fod_iff :
    (parse_any : Text → Option (Text × List ℕ)) (d : Derivation) (g : GoDerivation)
    → Parses parse_any
    → to_go_nix_derivation parse_any d ≡ ok g
    → (is_fod g ≡ true) ↔ OnlyFixed d.outputs
unfolding to_go_nix_derivation is_fod
is_fod_iff parse_any d g parses h =
    let record { value = outputs; came = came; went = went } =
      ok_of_bind _ (convert_outputs parse_any d.outputs) h in
    subst (λ x. (single_with_hash x ≡ true) ↔ OnlyFixed d.outputs)
      (ap (λ x. x.outputs) (ok_cancel went))
      (convert_outputs-IsFixed parse_any parses d.outputs outputs came)
