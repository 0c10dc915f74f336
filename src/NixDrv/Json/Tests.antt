-- ===== src/NixDrv/Json/Tests.antt =====
-- The JSON of a small derivation.
use go2nix.Base.{[], ◌∷◌, ◌≡◌, refl, Text, codes, Dict}
use mathlib.Core.List.{Permᴰ}
use go2nix.NixDrv.Derivation.{
  InputDrv, Derivation, input_drv, no_dynamic, new_derivation, add_arg, set_env, add_ca_output,
  add_input_drv, add_input_src, store_base_name,
}
use go2nix.NixDrv.Json.{sorted_slice, to_json}
use go2nix.NixDrv.Json.Order.{to_json_order}

abbrev package_drv : Derivation
unfolding new_derivation add_arg set_env add_ca_output add_input_drv add_input_src
package_drv = add_arg (codes "-c") (
    add_input_src (codes "/nix/store/src") (
      add_input_drv (codes "/nix/store/b.drv") (codes "out" ∷ []) (
        add_input_drv (codes "/nix/store/a.drv") (codes "out" ∷ []) (
          add_ca_output (codes "out") (codes "sha256") (codes "nar") (
            set_env (codes "z") (codes "<\n>") (
              set_env (codes "k") (codes "v")
                (new_derivation (codes "x") (codes "s") (codes "/b"))))))))

package_json :
    to_json package_drv
    ≡ codes
        "{\"name\":\"x\",\"version\":4,\"outputs\":{\"out\":{\"hashAlgo\":\"sha256\",\"method\":\"nar\"}},\"inputs\":{\"srcs\":[\"src\"],\"drvs\":{\"a.drv\":{\"outputs\":[\"out\"],\"dynamicOutputs\":{}},\"b.drv\":{\"outputs\":[\"out\"],\"dynamicOutputs\":{}}}},\"system\":\"s\",\"builder\":\"/b\",\"args\":[\"-c\"],\"env\":{\"k\":\"v\",\"z\":\"\\u003c\\n\\u003e\"}}"
unfolding to_json package_drv
package_json = refl

-- A derivation without input sources.
no_sources : sorted_slice [] ≡ codes "null"
unfolding sorted_slice
no_sources = refl

abbrev env : Dict Text
env = (codes "z", codes "<\n>") ∷ (codes "k", codes "v") ∷ []

abbrev drvs : Dict InputDrv
drvs =
    (codes "/nix/store/b.drv", input_drv (codes "out" ∷ []) no_dynamic)
    ∷ (codes "/nix/store/a.drv", input_drv (codes "out" ∷ []) no_dynamic)
    ∷ []

to_json_order_example :
    to_json package_drv
    ≡ to_json (record package_drv {
      env = env;
      outputs = package_drv.outputs;
      input_srcs = package_drv.input_srcs;
      input_drvs = drvs;
    })
unfolding package_drv store_base_name
to_json_order_example =
    to_json_order package_drv env package_drv.outputs package_drv.input_srcs drvs
      ((refl, (refl, tt)), Permᴰ.swap refl refl) ((refl, tt), Permᴰ.cons refl Permᴰ.nil)
      (Permᴰ.cons refl Permᴰ.nil) (refl, (refl, tt)) (Permᴰ.swap refl refl)
