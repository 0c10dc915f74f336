-- ===== src/NixDrv/Json.antt =====
-- go/go2nix/pkg/nixdrv/derivation.go: the JSON that `nix derivation add` reads. Strings are written
-- the way encoding/json writes them, and a nil slice, as a call with no outputs or a derivation with
-- no input sources has, as null.
pub mod Order
mod Tests
use go2nix.Base.{
  ℕ, ◌+◌, ◌-◌, ◌/◌, ◌%◌, List, [], ◌∷◌, ◌++◌, Bool, ◌||◌, Option, none, some, Text, codes, text_eq,
  ltb, ◌==◌, map, flat_map, sort, Dict, lookup, insert, keys, if◌then◌else◌,
}
use go2nix.NixDrv.Names.{hex_digit}
use go2nix.NixDrv.Derivation.{
  InputDrv, DynamicOutputs, input_drv, no_dynamic, dynamic, Output, Derivation, store_base_name,
}

unfoldable pub json_char : ℕ → Text
unfolding hex_digit
json_char c =
    if (c == b'"') || (c == b'\\')
    then b'\\' ∷ c ∷ []
    else if c == 8
    then codes "\\b"
    else if c == 12
    then codes "\\f"
    else if c == b'\n'
    then codes "\\n"
    else if c == b'\r'
    then codes "\\r"
    else if c == b'\t'
    then codes "\\t"
    else if ltb c 32 || (c == b'<') || (c == b'>') || (c == b'&')
    then codes "\\u00" ++ (hex_digit (c / 16) ∷ hex_digit (c % 16) ∷ [])
    else if c == 0x2028
    then codes "\\u2028"
    else if c == 0x2029
    then codes "\\u2029"
    else c ∷ []

unfoldable pub json_string : Text → Text
unfolding json_char
json_string s = codes "\"" ++ (flat_map json_char s ++ codes "\"")

abbrev pub join : List Text → Text
join [] = []
join (s ∷ []) = s
join (s ∷ t ∷ rest) = s ++ (codes "," ++ join (t ∷ rest))

abbrev pub json_list : List Text → Text
json_list values = codes "[" ++ (join values ++ codes "]")

abbrev pub json_object : List Text → Text
json_object members = codes "{" ++ (join members ++ codes "}")

abbrev pub member : Text → Text → Text
unfolding json_string
member key value = json_string key ++ (codes ":" ++ value)

-- A slice that is nil where it is empty.
abbrev pub nil_list : List Text → Text
nil_list [] = codes "null"
nil_list (value ∷ values) = json_list (value ∷ values)

-- sortedMap.MarshalJSON, and encoding/json on a map.
abbrev pub value_or_empty : Option Text → Text
value_or_empty none = []
value_or_empty (some value) = value

abbrev pub map_values {ℓ} : {V : Type 0} {W : Type ℓ} → (V → W) → List (Text × V) → List (Text × W)
map_values f [] = []
map_values f ((k, v) ∷ m) = (k, f v) ∷ map_values f m

unfoldable pub sorted_map : Dict Text → Text
unfolding json_string sort
sorted_map m = json_object (map (λ k. member k (value_or_empty (lookup k m))) (sort (keys m)))

-- sortedSlice.MarshalJSON
unfoldable pub sorted_slice : List Text → Text
unfolding json_string sort
sorted_slice values = nil_list (map json_string (sort values))

-- A field with `omitempty`.
abbrev pub set_member : Text → Text → List Text
unfolding json_string
set_member key value = if text_eq value [] then [] else member key (json_string value) ∷ []

unfoldable pub output_json : Output → Text
unfolding json_string
output_json o = json_object (
    set_member (codes "hashAlgo") o.hash_algo
    ++ (set_member (codes "method") o.method
        ++ (set_member (codes "hash") o.hash ++ set_member (codes "path") o.path)))

unfoldable mutual
  unfolding json_string sorted_map

  pub input_drv_json : InputDrv → Text
  input_drv_json (input_drv outputs dynamics) = json_object (
      member (codes "outputs") (nil_list (map json_string outputs))
      ∷ member (codes "dynamicOutputs") (sorted_map (dynamics_json dynamics))
      ∷ [])

  pub dynamics_json : DynamicOutputs → Dict Text
  dynamics_json no_dynamic = []
  dynamics_json (dynamic name drv rest) = insert name (input_drv_json drv) (dynamics_json rest)

-- The loop of toSerializable over the input derivations.
unfoldable pub base_drvs : Dict InputDrv → Dict InputDrv → Dict InputDrv
unfolding store_base_name
base_drvs [] drvs = drvs
base_drvs ((path, drv) ∷ rest) drvs = base_drvs rest (insert (store_base_name path) drv drvs)

-- The fields of a derivation, the maps written already.
abbrev pub derivation_json :
    (name system builder : Text) → List Text → (outputs srcs drvs env : Text) → Text
unfolding json_string
derivation_json name system builder args outputs srcs drvs env = json_object (
    member (codes "name") (json_string name)
    ∷ member (codes "version") (codes "4")
    ∷ member (codes "outputs") outputs
    ∷ member (codes "inputs")
        (json_object (member (codes "srcs") srcs ∷ member (codes "drvs") drvs ∷ []))
    ∷ member (codes "system") (json_string system)
    ∷ member (codes "builder") (json_string builder)
    ∷ member (codes "args") (json_list (map json_string args))
    ∷ member (codes "env") env
    ∷ [])

unfoldable pub to_json : Derivation → Text
unfolding json_string sorted_map sorted_slice output_json input_drv_json base_drvs store_base_name
to_json d =
    derivation_json d.name d.system d.builder d.args (sorted_map (map_values output_json d.outputs))
      (sorted_slice (map store_base_name (keys d.input_srcs)))
      (sorted_map (map_values input_drv_json (base_drvs d.input_drvs [])))
      (sorted_map (map_values json_string d.env))
