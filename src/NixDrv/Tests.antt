-- ===== src/NixDrv/Tests.antt =====
-- The theorems on go/go2nix/pkg/nixdrv at concrete names and derivations.
use go2nix.Base.{
  ℕ, ◌%◌, ◌≤◌, List, [], ◌∷◌, ◌++◌, ◌≡◌, ◌≢◌, refl, ◌⊎◌, ◌↔◌, inl, inr, true, Option, none, some,
  Text, codes, text_eq, text_eq_iff, Bool-cases, false, subst, Dict, keys, All, Memᴰ, length, ok,
  err, if◌then◌else◌, arith,
}
use go2nix.NixDrv.Derivation.{
  Derivation, new_derivation, add_arg, set_env, add_fod_output, add_input_drv, add_input_src,
  store_base_name,
}
use go2nix.NixDrv.Derivation.Merge.{Distinct, none_yet, one_more}
use go2nix.NixDrv.Derivation.Inputs.{
  Call, Asked, add_calls, outputs_at, add_input_drv-Asked, add_input_drv-Distinct,
}
use go2nix.NixDrv.Placeholder.{
  StorePath, not_a_derivation_path, hash_part, output_path_name, clear_text, ca_output,
}
use go2nix.NixDrv.Placeholder.Distinguish.{ca_output_iff, clear_text_distinguish}
use go2nix.NixDrv.Aterm.{GoDerivation, to_go_nix_derivation, is_fod, drv_path, aterm}
use go2nix.NixDrv.Aterm.Fixed.{Parses, OnlyFixed, is_fod_iff}
use go2nix.NixDrv.Aterm.Path.{aterm_references, drv_path-aterm}
use mathlib.Core.List.Memᴰ
use go2nix.NixDrv.Names.{hex_digit, sanitize_name, pkg_drv_name}
use go2nix.NixDrv.Names.Valid.{IsStoreChar, IsByte, sanitize_name_valid, pkg_drv_name_valid}

abbrev digest : Text → List ℕ
digest s = 1 ∷ 171 ∷ length s % 256 ∷ 255 ∷ 7 ∷ []

digest-IsByte : (s : Text) → All IsByte (digest s)
digest-IsByte s = (omega arith, (omega arith, (omega arith, (omega arith, (omega arith, tt)))))

sanitized : sanitize_name digest (codes "golang.org/x/mod@v1~b") ≡ codes "golang.org-x-mod_at_v1_b"
unfolding sanitize_name
sanitized = refl

sanitize_name_valid_example :
    All IsStoreChar (sanitize_name digest (codes "golang.org/x/mod@v1~b"))
    × (length (sanitize_name digest (codes "golang.org/x/mod@v1~b")) ≤ 160)
    × (sanitize_name digest (sanitize_name digest (codes "golang.org/x/mod@v1~b"))
        ≡ sanitize_name digest (codes "golang.org/x/mod@v1~b"))
    × (All IsStoreChar (codes "golang.org/x/mod@v1~b")
        → length (codes "golang.org/x/mod@v1~b") ≤ 160
        → sanitize_name digest (codes "golang.org/x/mod@v1~b") ≡ codes "golang.org/x/mod@v1~b")
sanitize_name_valid_example =
    sanitize_name_valid digest (codes "golang.org/x/mod@v1~b") digest-IsByte

pkg_drv_name_valid_example :
    All IsStoreChar (pkg_drv_name digest (codes "a/b") (codes "v1.2.3"))
    × (length (pkg_drv_name digest (codes "a/b") (codes "v1.2.3")) ≤ 211)
pkg_drv_name_valid_example =
    pkg_drv_name_valid digest (codes "a/b") (codes "v1.2.3") digest-IsByte
      (refl, (refl, (refl, (refl, (refl, (refl, tt)))))) (omega arith)

-- Two calls for one derivation, and one for another.
abbrev calls : List Call
calls =
    record { drv_path = codes "/nix/store/a.drv"; outputs = codes "out" ∷ codes "dev" ∷ [] }
    ∷ record { drv_path = codes "/nix/store/b.drv"; outputs = codes "out" ∷ [] }
    ∷ record { drv_path = codes "/nix/store/a.drv"; outputs = codes "lib" ∷ codes "out" ∷ [] }
    ∷ []

abbrev bare : Derivation
unfolding new_derivation
bare = new_derivation (codes "gopkg-x") (codes "x86_64-linux") (codes "/bin/sh")

asked_outputs :
    outputs_at (codes "/nix/store/a.drv") (add_calls calls bare)
    ≡ codes "out" ∷ codes "dev" ∷ codes "lib" ∷ []
unfolding add_input_drv new_derivation
asked_outputs = refl

base_name : store_base_name (codes "/nix/store/abc-x") ≡ codes "abc-x"
unfolding store_base_name
base_name = refl

add_input_drv-Asked_example :
    Memᴰ (codes "lib") (outputs_at (codes "/nix/store/a.drv") (add_calls calls bare)) ↔ (
      Memᴰ (codes "lib") (outputs_at (codes "/nix/store/a.drv") bare)
      ⊎ ((c : Call) × Memᴰ c calls × Asked (codes "/nix/store/a.drv") (codes "lib") c))
add_input_drv-Asked_example =
    add_input_drv-Asked (codes "/nix/store/a.drv") (codes "lib") calls bare

apart : (a b : Text) → text_eq a b ≡ false → a ≢ b
apart a b e q = cc ((text_eq_iff a b).1 q)

out-Distinct : Distinct (codes "out" ∷ [])
out-Distinct = one_more {a = []} none_yet (λ m. Memᴰ.not-nil m)

out_dev-Distinct : Distinct (codes "out" ∷ codes "dev" ∷ [])
out_dev-Distinct =
    one_more {a = codes "out" ∷ []} out-Distinct
      (λ m. apart (codes "dev") (codes "out") refl (Memᴰ.eq_of_singleton m))

lib_out-Distinct : Distinct (codes "lib" ∷ codes "out" ∷ [])
lib_out-Distinct =
    one_more {a = codes "lib" ∷ []} (one_more {a = []} none_yet (λ m. Memᴰ.not-nil m))
      (λ m. apart (codes "out") (codes "lib") refl (Memᴰ.eq_of_singleton m))

add_input_drv-Distinct_example :
    Distinct (outputs_at (codes "/nix/store/a.drv") (add_calls calls bare))
unfolding new_derivation
add_input_drv-Distinct_example =
    add_input_drv-Distinct (codes "/nix/store/a.drv") calls bare
      (out_dev-Distinct, (out-Distinct, (lib_out-Distinct, tt))) none_yet

abbrev base32 : List ℕ → Text
base32 bytes = bytes

abbrev lib_drv : StorePath
lib_drv = record { name = codes "lib.drv"; digest = codes "0123" }

placeholder :
    ca_output digest base32 lib_drv (codes "dev")
    ≡ ok (digest (codes "nix-upstream-output:0123:lib-dev"))
unfolding ca_output
placeholder = refl

no_placeholder :
    ca_output digest base32 (record { name = codes "lib"; digest = [] }) (codes "out")
    ≡ err (not_a_derivation_path (record { name = codes "lib"; digest = [] }))
unfolding ca_output
no_placeholder = refl

dev_output_here :
    (ca_output digest base32 lib_drv (codes "dev")
      ≡ ok (digest (codes "nix-upstream-output:0123:lib-dev")))
    ↔ ((drv : Text) × (lib_drv.name ≡ drv ++ codes ".drv")
        × (digest (codes "nix-upstream-output:0123:lib-dev")
            ≡ digest (clear_text digest base32 lib_drv drv (codes "dev"))))
dev_output_here =
    ca_output_iff digest base32 lib_drv (codes "dev")
      (digest (codes "nix-upstream-output:0123:lib-dev"))

clear_text_distinguish_example :
    (hash_part digest base32 lib_drv ≡ hash_part digest base32 lib_drv)
    × (output_path_name (codes "lib") (codes "dev")
        ≡ output_path_name (codes "lib-dev") (codes "out"))
    × (codes "lib" ≡ codes "lib-dev" → codes "dev" ≡ codes "out")
unfolding clear_text
clear_text_distinguish_example =
    clear_text_distinguish digest base32 lib_drv lib_drv (codes "lib") (codes "lib-dev")
      (codes "dev") (codes "out") refl refl

-- A parser for one hash, and a go-nix that writes the name of a derivation.
abbrev parse_any : Text → Option (Text × List ℕ)
parse_any sri = if text_eq sri (codes "sha256-qw==") then some (codes "sha256", 171 ∷ []) else none

-- What a result of `parse_any` holds.
abbrev Read : Option (Text × List ℕ) → Type 0
Read none = Unit
Read (some (algo, bytes)) = (algo ≢ []) × (bytes ≢ [])

parse_any-Parses : Parses parse_any
parse_any-Parses sri algo bytes h = elim (Bool-cases (text_eq sri (codes "sha256-qw=="))) [
  | inl e ↦
      let found : some (codes "sha256", 171 ∷ []) ≡ some (algo, bytes) = rw e at h in
      subst Read found (apart (codes "sha256") [] refl, apart (171 ∷ []) [] refl)
  | inr e ↦ cc (rw e at h)
]

abbrev fetch : Derivation
unfolding new_derivation set_env add_fod_output add_input_drv add_input_src add_arg
fetch = add_input_src (codes "/nix/store/src") (
    add_input_drv (codes "/nix/store/a.drv") (codes "out" ∷ []) (
      add_arg (codes "-e") (
        set_env (codes "k") (codes "v")
          (add_fod_output (codes "out") (codes "nar") (codes "sha256-qw==") bare))))

abbrev out_paths : GoDerivation → Option (Dict Text)
out_paths d = some ((codes "out", codes "/nix/store/out-" ++ d.name) ∷ [])

abbrev write : GoDerivation → Option Text
write d = some (d.name ++ (codes " " ++ d.platform))

abbrev text_path : Text → Text → List Text → Text
text_path name text refs = codes "/nix/store/h-" ++ (name ++ codes ".drv")

abbrev go_drv_path : GoDerivation → Option Text
go_drv_path d = some (text_path d.name [] [])

abbrev converted : GoDerivation
converted = record {
  name = codes "gopkg-x";
  outputs =
      (codes "out", record { path = []; hash_algorithm = codes "r:sha256"; hash = codes "ab" })
      ∷ [];
  input_sources = codes "/nix/store/src" ∷ [];
  input_derivations = (codes "/nix/store/a.drv", codes "out" ∷ []) ∷ [];
  platform = codes "x86_64-linux";
  builder = codes "/bin/sh";
  arguments = codes "-e" ∷ [];
  env = (codes "k", codes "v") ∷ [];
}

fetch-converted : to_go_nix_derivation parse_any fetch ≡ ok converted
unfolding to_go_nix_derivation fetch hex_digit
fetch-converted = refl

fetch-aterm :
    aterm out_paths parse_any write fetch
    ≡ ok (codes "gopkg-x x86_64-linux", codes "/nix/store/a.drv" ∷ codes "/nix/store/src" ∷ [])
unfolding aterm fetch
fetch-aterm = refl

is_fod_iff_example : (is_fod converted ≡ true) ↔ OnlyFixed fetch.outputs
is_fod_iff_example = is_fod_iff parse_any fetch converted parse_any-Parses fetch-converted

aterm_references_example :
    Memᴰ (codes "/nix/store/src") (codes "/nix/store/a.drv" ∷ codes "/nix/store/src" ∷ []) ↔ (
      Memᴰ (codes "/nix/store/src") (keys fetch.input_srcs)
      ⊎ Memᴰ (codes "/nix/store/src") (keys fetch.input_drvs))
aterm_references_example =
    aterm_references out_paths parse_any write fetch (codes "gopkg-x x86_64-linux") _
      (codes "/nix/store/src") fetch-aterm

drv_path-aterm_example :
    drv_path out_paths parse_any go_drv_path fetch
    ≡ ok (
        text_path fetch.name
          (codes "gopkg-x x86_64-linux")
          (codes "/nix/store/a.drv" ∷ codes "/nix/store/src" ∷ []))
drv_path-aterm_example =
    drv_path-aterm out_paths parse_any write go_drv_path text_path fetch
      (codes "gopkg-x x86_64-linux") _ (λ g t h. refl) fetch-aterm
