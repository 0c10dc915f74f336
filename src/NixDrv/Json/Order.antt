-- ===== src/NixDrv/Json/Order.antt =====
-- The JSON of a derivation does not depend on the order in which its maps were filled.
use go2nix.Base.{
  List, [], ◌∷◌, ◌++◌, ◌≡◌, refl, sym, ap, ap₂, ◌∙◌, subst, inl, inr, false, Bool-cases, none, some,
  Text, text_eq, text_eq_iff, text_eq_comm, map, sort, sort-Permᴰ, Dict, lookup, keys, append_assoc,
  append-nil, insert, if◌then◌else◌, arith,
}
use mathlib.Core.List.{Permᴰ}
use mathlib.Core.List.Permᴰ
use go2nix.NixDrv.Derivation.{InputDrv, Output, Derivation, store_base_name}
use go2nix.NixDrv.Json.{
  json_object, nil_list, derivation_json, member, value_or_empty, map_values, sorted_map,
  sorted_slice, json_string, base_drvs, to_json, output_json, input_drv_json,
}

module _ {V : Type 0} where
  -- One entry to a key.
  abbrev pub KeysDistinct : Dict V → Type 0
  KeysDistinct [] = Unit
  KeysDistinct ((k, v) ∷ m) = (lookup k m ≡ none) × KeysDistinct m

  -- Entries in another order.
  abbrev pub SameEntries : Dict V → Dict V → Type 0
  SameEntries m n = KeysDistinct m × Permᴰ m n

  keys-Permᴰ : {m n : Dict V} → Permᴰ m n → Permᴰ (keys m) (keys n)
  keys-Permᴰ Permᴰ.nil = Permᴰ.nil
  keys-Permᴰ (Permᴰ.cons e p) = Permᴰ.cons (ap (λ x. x.0) e) (keys-Permᴰ p)
  keys-Permᴰ (Permᴰ.swap e f) = Permᴰ.swap (ap (λ x. x.0) e) (ap (λ x. x.0) f)
  keys-Permᴰ (Permᴰ.trans p q) = Permᴰ.trans (keys-Permᴰ p) (keys-Permᴰ q)

  -- Distinct keys stay distinct, and have the same values.
  abbrev SameValues : Dict V → Dict V → Type 0
  SameValues m n = KeysDistinct n × ((asked : Text) → lookup asked m ≡ lookup asked n)

  swapped :
      (a b : Text × V) (l : Dict V) → KeysDistinct (a ∷ b ∷ l) → SameValues (a ∷ b ∷ l) (b ∷ a ∷ l)
  swapped (j, v) (k, w) l (first, (second, rest)) = elim (Bool-cases (text_eq k j)) [
    | inl e ↦ cc (rw e at first)
    | inr e ↦
        let apart : text_eq j k ≡ false = text_eq_comm j k ∙ e in
        (
          (rw apart second, (rw e at first, rest)),
          λ asked. ground (arith, text_eq_iff j asked, text_eq_iff k asked, text_eq_iff k j, e),
        )
  ]

  lookup-Permᴰ : {m n : Dict V} → Permᴰ m n → KeysDistinct m → SameValues m n
  lookup-Permᴰ Permᴰ.nil d = (tt, λ asked. refl)
  lookup-Permᴰ (Permᴰ.cons {a = a} {b = b} {l₁ = l} {l₂ = l'} e p) (first, rest) =
      let (distinct, same) = lookup-Permᴰ p rest in
      subst (λ x. SameValues (a ∷ l) (x ∷ l')) e
        (
          (sym (same a.0) ∙ first, distinct),
          λ asked. ap (λ o. if text_eq a.0 asked then some a.1 else o) (same asked),
        )
  lookup-Permᴰ (Permᴰ.swap {a = a} {b = b} {a' = a'} {b' = b'} {l = l} e f) d =
      subst (λ x. SameValues (a ∷ b ∷ l) (x ∷ b' ∷ l)) f
        (subst (λ x. SameValues (a ∷ b ∷ l) (b ∷ x ∷ l)) e (swapped a b l d))
  lookup-Permᴰ (Permᴰ.trans p q) d =
      let (distinct, same) = lookup-Permᴰ p d in
      let (distinct', same') = lookup-Permᴰ q distinct in
      (distinct', λ asked. same asked ∙ same' asked)

sorted_slice-Permᴰ : {a b : List Text} → Permᴰ a b → sorted_slice a ≡ sorted_slice b
unfolding sorted_slice
sorted_slice-Permᴰ p = ap (λ l. nil_list (map json_string l)) (sort-Permᴰ p)

map_same : {f g : Text → Text} (xs : List Text) → ((x : Text) → f x ≡ g x) → map f xs ≡ map g xs
map_same [] h = refl
map_same (x ∷ xs) h = ap₂ (λ y ys. y ∷ ys) (h x) (map_same xs h)

sorted_map-SameEntries : {m n : Dict Text} → SameEntries m n → sorted_map m ≡ sorted_map n
unfolding sorted_map
sorted_map-SameEntries {m} {n} (distinct, p) =
    ap (λ ks. json_object (map (λ k. member k (value_or_empty (lookup k m))) ks))
      (sort-Permᴰ (keys-Permᴰ p))
    ∙ ap json_object (
        map_same (sort (keys n))
          (λ k. ap (λ v. member k (value_or_empty v)) ((lookup-Permᴰ p distinct).1 k)))

module _ {V : Type 0} where
  lookup-map_values :
      (f : V → Text) (k : Text) (m : Dict V) → lookup k m ≡ none → lookup k (map_values f m) ≡ none
  lookup-map_values f k [] h = refl
  lookup-map_values f k ((j, v) ∷ m) h = elim (Bool-cases (text_eq j k)) [
    | inl e ↦ cc (rw e at h)
    | inr e ↦ rw e (lookup-map_values f k m (rw e at h))
  ]

  map_values-KeysDistinct :
      (f : V → Text) (m : Dict V) → KeysDistinct m → KeysDistinct (map_values f m)
  map_values-KeysDistinct f [] d = tt
  map_values-KeysDistinct f ((k, v) ∷ m) (first, rest) =
      (lookup-map_values f k m first, map_values-KeysDistinct f m rest)

  map_values-Permᴰ :
      (f : V → Text) {m n : Dict V} → Permᴰ m n → Permᴰ (map_values f m) (map_values f n)
  map_values-Permᴰ f Permᴰ.nil = Permᴰ.nil
  map_values-Permᴰ f (Permᴰ.cons e p) = Permᴰ.cons (ap (λ x. (x.0, f x.1)) e) (map_values-Permᴰ f p)
  map_values-Permᴰ f (Permᴰ.swap e g) =
      Permᴰ.swap (ap (λ x. (x.0, f x.1)) e) (ap (λ x. (x.0, f x.1)) g)
  map_values-Permᴰ f (Permᴰ.trans p q) = Permᴰ.trans (map_values-Permᴰ f p) (map_values-Permᴰ f q)

  values_json-SameEntries :
      (f : V → Text) {m n : Dict V}
      → SameEntries m n
      → sorted_map (map_values f m) ≡ sorted_map (map_values f n)
  values_json-SameEntries f {m} (distinct, p) =
      sorted_map-SameEntries (map_values-KeysDistinct f m distinct, map_values-Permᴰ f p)

  -- Inserting under a key that is not there appends.
  insert_new : (k : Text) (v : V) (m : Dict V) → lookup k m ≡ none → insert k v m ≡ m ++ (k, v) ∷ []
  insert_new k v [] h = refl
  insert_new k v ((j, w) ∷ m) h = elim (Bool-cases (text_eq j k)) [
    | inl e ↦ cc (rw e at h)
    | inr e ↦ rw e (ap (λ t. (j, w) ∷ t) (insert_new k v m (rw e at h)))
  ]

  lookup-append_none :
      (j k : Text) (v : V) (m n : Dict V) → lookup j (m ++ (k, v) ∷ n) ≡ none → text_eq k j ≡ false
  lookup-append_none j k v [] n h = elim (Bool-cases (text_eq k j)) [
    | inl e ↦ cc (rw e at h)
    | inr e ↦ e
  ]
  lookup-append_none j k v ((i, w) ∷ m) n h = elim (Bool-cases (text_eq i j)) [
    | inl e ↦ cc (rw e at h)
    | inr e ↦ lookup-append_none j k v m n (rw e at h)
  ]

  first_part_without :
      (k : Text) (v : V) (m n : Dict V) → KeysDistinct (m ++ (k, v) ∷ n) → lookup k m ≡ none
  first_part_without k v [] n d = refl
  first_part_without k v ((j, w) ∷ m) n (first, rest) =
      rw (text_eq_comm j k ∙ lookup-append_none j k v m n first) (first_part_without k v m n rest)

-- The input derivations under their base names.
abbrev pub with_base_names : Dict InputDrv → Dict InputDrv
with_base_names [] = []
with_base_names ((path, drv) ∷ rest) = (store_base_name path, drv) ∷ with_base_names rest

base_drvs-append :
    (m acc : Dict InputDrv)
    → KeysDistinct (acc ++ with_base_names m)
    → base_drvs m acc ≡ acc ++ with_base_names m
unfolding base_drvs store_base_name
base_drvs-append [] acc d = sym (append-nil acc)
base_drvs-append ((path, drv) ∷ rest) acc d =
    let name = store_base_name path in
    let added = append_assoc acc ((name, drv) ∷ []) (with_base_names rest) in
    ap (base_drvs rest)
      (insert_new name drv acc (first_part_without name drv acc (with_base_names rest) d))
    ∙ base_drvs-append rest (acc ++ (name, drv) ∷ []) (subst KeysDistinct (sym added) d)
    ∙ added

with_base_names-Permᴰ :
    {m n : Dict InputDrv} → Permᴰ m n → Permᴰ (with_base_names m) (with_base_names n)
unfolding store_base_name
with_base_names-Permᴰ Permᴰ.nil = Permᴰ.nil
with_base_names-Permᴰ (Permᴰ.cons e p) =
    Permᴰ.cons (ap (λ x. (store_base_name x.0, x.1)) e) (with_base_names-Permᴰ p)
with_base_names-Permᴰ (Permᴰ.swap e g) =
    Permᴰ.swap (ap (λ x. (store_base_name x.0, x.1)) e) (ap (λ x. (store_base_name x.0, x.1)) g)
with_base_names-Permᴰ (Permᴰ.trans p q) =
    Permᴰ.trans (with_base_names-Permᴰ p) (with_base_names-Permᴰ q)

drvs_json :
    (m n : Dict InputDrv)
    → KeysDistinct (with_base_names m)
    → Permᴰ m n
    → sorted_map (map_values input_drv_json (base_drvs m []))
      ≡ sorted_map (map_values input_drv_json (base_drvs n []))
drvs_json m n distinct p =
    let renamed = with_base_names-Permᴰ p in
    ap (λ x. sorted_map (map_values input_drv_json x)) (base_drvs-append m [] distinct)
    ∙ values_json-SameEntries input_drv_json (distinct, renamed)
    ∙ ap (λ x. sorted_map (map_values input_drv_json x))
        (sym (base_drvs-append n [] (lookup-Permᴰ renamed distinct).0))

-- The JSON of a derivation is the same in whatever order its variables, outputs, input sources and
-- input derivations were added, where no two input derivations have one base name.
pub to_json_order :
    (d : Derivation) (env : Dict Text) (outputs : Dict Output) (input_srcs : Dict (Unit {0}))
    (input_drvs : Dict InputDrv)
    → SameEntries d.env env
    → SameEntries d.outputs outputs
    → Permᴰ d.input_srcs input_srcs
    → KeysDistinct (with_base_names d.input_drvs)
    → Permᴰ d.input_drvs input_drvs
    → to_json d
      ≡ to_json (record d {
        env = env;
        outputs = outputs;
        input_srcs = input_srcs;
        input_drvs = input_drvs;
      })
unfolding to_json
to_json_order d env outputs input_srcs input_drvs same_env same_outputs srcs distinct drvs =
    let write = derivation_json d.name d.system d.builder d.args in
    let written_outputs = values_json-SameEntries output_json same_outputs in
    let written_srcs = sorted_slice-Permᴰ (Permᴰ.map store_base_name (keys-Permᴰ srcs)) in
    let written_drvs = drvs_json d.input_drvs input_drvs distinct drvs in
    let written_env = values_json-SameEntries json_string same_env in
    ap₂
      (λ o s.
        write o s (sorted_map (map_values input_drv_json (base_drvs d.input_drvs [])))
          (sorted_map (map_values json_string d.env)))
      written_outputs written_srcs
    ∙ ap₂
        (write (sorted_map (map_values output_json outputs))
          (sorted_slice (map store_base_name (keys input_srcs))))
        written_drvs written_env
