-- ===== src/NixDrv/Derivation/Inputs.antt =====
-- The outputs of input derivations that a run of AddInputDrv calls leaves.
use go2nix.Base.{
  List, [], ◌∷◌, ◌≡◌, refl, subst, inl, inr, ◌⊎◌, ◌↔◌, Option, none, some, Text, Text-cases,
  text_eq, text_eq_refl, ap, ◌∙◌, false, text_eq_iff, lookup, lookup-insert, Memᴰ, All, ⊎_elim,
}
use mathlib.Core.List.Memᴰ
use go2nix.NixDrv.Derivation.{
  InputDrv, input_drv, Derivation, outputs_of, merge_outputs, merge_unique, add_input_drv,
}
use go2nix.NixDrv.Derivation.Merge.{Distinct, merge_unique-Memᴰ, merge_unique-Distinct}

-- The arguments of a call of AddInputDrv.
pub record Call : Type 0 where
  pub drv_path : Text
  pub outputs : List Text

-- The calls, one after the other.
abbrev pub add_calls : List Call → Derivation → Derivation
add_calls [] d = d
add_calls (c ∷ calls) d = add_calls calls (add_input_drv c.drv_path c.outputs d)

abbrev pub get_outputs : Option InputDrv → List Text
get_outputs none = []
get_outputs (some input) = outputs_of input

-- The outputs of an input derivation that a derivation asks for.
abbrev pub outputs_at : Text → Derivation → List Text
outputs_at p d = get_outputs (lookup p d.input_drvs)

abbrev pub Asked : Text → Text → Call → Type 0
Asked p o c = (c.drv_path ≡ p) × Memᴰ o c.outputs

merge_outputs-Memᴰ :
    (o : Text) (outputs : List Text) (old : Option InputDrv)
    → Memᴰ o (outputs_of (merge_outputs outputs old)) ↔ (Memᴰ o (get_outputs old) ⊎ Memᴰ o outputs)
unfolding merge_unique
merge_outputs-Memᴰ o outputs none = (inr, ⊎_elim (λ m. absurd (Memᴰ.not-nil m)) (λ m. m))
merge_outputs-Memᴰ o outputs (some (input_drv old _)) = merge_unique-Memᴰ o old outputs

merge_outputs-Distinct :
    (old : Option InputDrv) (outputs : List Text)
    → Distinct (get_outputs old)
    → Distinct outputs
    → Distinct (outputs_of (merge_outputs outputs old))
unfolding merge_unique
merge_outputs-Distinct none outputs given h = h
merge_outputs-Distinct (some (input_drv old _)) outputs given h =
    merge_unique-Distinct old outputs given

outputs_at_same :
    (p : Text) (outputs : List Text) (d : Derivation)
    → outputs_at p (add_input_drv p outputs d)
      ≡ outputs_of (merge_outputs outputs (lookup p d.input_drvs))
unfolding add_input_drv
outputs_at_same p outputs d =
    rw
      (
        lookup-insert d.input_drvs p (merge_outputs outputs (lookup p d.input_drvs)) p,
        text_eq_refl p,
      )
      refl

outputs_at_other :
    (p path : Text) (outputs : List Text) (d : Derivation)
    → text_eq path p ≡ false
    → outputs_at p (add_input_drv path outputs d) ≡ outputs_at p d
unfolding add_input_drv
outputs_at_other p path outputs d e =
    rw (lookup-insert d.input_drvs path (merge_outputs outputs (lookup path d.input_drvs)) p, e)
      refl

add_input_drv-Asked_once :
    (p o : Text) (c : Call) (d : Derivation)
    → Memᴰ o (outputs_at p (add_input_drv c.drv_path c.outputs d))
      ↔ (Memᴰ o (outputs_at p d) ⊎ Asked p o c)
add_input_drv-Asked_once p o c d = elim (Text-cases c.drv_path p) [
  | inl same ↦
      let merged = merge_outputs-Memᴰ o c.outputs (lookup p d.input_drvs) in
      let at_p : outputs_at p (add_input_drv c.drv_path c.outputs d)
          ≡ outputs_of (merge_outputs c.outputs (lookup p d.input_drvs)) =
        ap (λ q. outputs_at p (add_input_drv q c.outputs d)) same ∙ outputs_at_same p c.outputs d in
      rw at_p (
        (λ m. ⊎_elim inl (λ n. inr (same, n)) (merged.0 m)),
        ⊎_elim (λ m. merged.1 (inl m)) (λ a. merged.1 (inr a.1)),
      )
  | inr e ↦
      rw (outputs_at_other p c.drv_path c.outputs d e)
        (inl, ⊎_elim (λ m. m) (λ a. cc ((text_eq_iff c.drv_path p).1 a.0)))
]

-- After a run of calls of AddInputDrv, the outputs that a derivation asks of an input derivation
-- are those that it asked of it before, and those of the calls with its path.
pub add_input_drv-Asked :
    (p o : Text) (calls : List Call) (d : Derivation)
    → Memᴰ o (outputs_at p (add_calls calls d))
      ↔ (Memᴰ o (outputs_at p d) ⊎ ((c : Call) × Memᴰ c calls × Asked p o c))
add_input_drv-Asked p o [] d = (inl, ⊎_elim (λ m. m) (λ (c, m, a). absurd (Memᴰ.not-nil m)))
add_input_drv-Asked p o (c ∷ calls) d =
    let ih = add_input_drv-Asked p o calls (add_input_drv c.drv_path c.outputs d) in
    let step = add_input_drv-Asked_once p o c d in
    (
      λ m. elim (ih.0 m) [
        | inl n ↦ ⊎_elim inl (λ a. inr (c, Memᴰ.head refl, a)) (step.0 n)
        | inr (b, n, a) ↦ inr (b, Memᴰ.tail n, a)
      ],
      λ k. elim k [
        | inl n ↦ ih.1 (inl (step.1 (inl n)))
        | inr (b, n, a) ↦ elim (Memᴰ.cases_cons n) [
          | inl q ↦ ih.1 (inl (step.1 (inr (subst (Asked p o) q a))))
          | inr t ↦ ih.1 (inr (b, t, a))
        ]
      ],
    )

-- A run of calls, each of which names no output twice, asks no output of an input derivation twice.
pub add_input_drv-Distinct :
    (p : Text) (calls : List Call) (d : Derivation)
    → All (λ c. Distinct c.outputs) calls
    → Distinct (outputs_at p d)
    → Distinct (outputs_at p (add_calls calls d))
add_input_drv-Distinct p [] d h given = given
add_input_drv-Distinct p (c ∷ calls) d h given =
    add_input_drv-Distinct p calls (add_input_drv c.drv_path c.outputs d) h.1
      (elim (Text-cases c.drv_path p) [
        | inl same ↦
            rw
              (ap (λ q. outputs_at p (add_input_drv q c.outputs d)) same
                ∙ outputs_at_same p c.outputs d)
              (merge_outputs-Distinct (lookup p d.input_drvs) c.outputs given h.0)
        | inr e ↦ rw (outputs_at_other p c.drv_path c.outputs d e) given
      ])
