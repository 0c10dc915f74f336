-- ===== src/CgoFlags/Tests.antt =====
-- Flags that the check accepts and refuses.
use go2nix.Base.{List, [], ◌∷◌, ◌≡◌, refl, none, Text, codes, All, ok, err}
use go2nix.CgoFlags.Check.{
  Environment, invalid_flag, invalid_pair, without_argument, check_compiler_flags,
  check_linker_flags, check_pkg_config_flags, check_compiler_flags_for_internal_link,
}
use mathlib.Core.List.Memᴰ
use go2nix.CgoFlags.Safe.{
  Lacks, check_compiler_flags-Lacks, check_linker_flags-Lacks,
  check_compiler_flags_for_internal_link-Lacks,
}
use go2nix.CgoFlags.PkgConfig.{IsLong, check_pkg_config_flags-IsLong}

-- No variable is set, so no pattern is compiled.
abbrev plain : Environment
plain = record { getenv = λ _. []; compile = λ _. none }

abbrev cflags : Text
cflags = codes "CFLAGS"

abbrev here : Text
here = codes "#cgo CFLAGS"

abbrev compiler_list : List Text
compiler_list =
    codes "-O2"
    ∷ codes "-fno-lto"
    ∷ codes "-DX=1"
    ∷ codes "-I"
    ∷ codes "include"
    ∷ codes "-Wall"
    ∷ []

compiler_accepts : check_compiler_flags plain cflags here compiler_list ≡ ok tt
unfolding check_compiler_flags
compiler_accepts = refl

compiler_refuses :
    check_compiler_flags plain cflags here (codes "-O2" ∷ codes "-fplugin=x.so" ∷ [])
    ≡ err (invalid_flag here (codes "-fplugin=x.so"))
unfolding check_compiler_flags
compiler_refuses = refl

compiler_refuses_next :
    (check_compiler_flags plain cflags here (codes "-I" ∷ codes "@x" ∷ [])
      ≡ err (invalid_pair here (codes "-I") (codes "@x")))
    × (check_compiler_flags plain cflags here (codes "-I" ∷ [])
        ≡ err (without_argument here (codes "-I")))
unfolding check_compiler_flags
compiler_refuses_next = (refl, refl)

abbrev linker_list : List Text
linker_list =
    codes "-Wl,--push-state,--as-needed"
    ∷ codes "-lfoo"
    ∷ codes "-Wl,--pop-state"
    ∷ codes "-Wl,-framework"
    ∷ codes "-Wl,Foundation"
    ∷ codes "lib/libz.a"
    ∷ []

linker_push_state : check_linker_flags plain cflags here linker_list ≡ ok tt
unfolding check_linker_flags
linker_push_state = refl

linker_push_state_refused :
    check_linker_flags plain cflags here (codes "-Wl,--push-state,-plugin" ∷ [])
    ≡ err (invalid_flag here (codes "-Wl,--push-state,-plugin"))
unfolding check_linker_flags
linker_push_state_refused = refl

-- The empty flag: FindString returns "" where it finds nothing.
empty_flag :
    (check_compiler_flags plain cflags here ([] ∷ []) ≡ ok tt)
    × (check_linker_flags plain cflags here ([] ∷ []) ≡ err (invalid_flag here []))
unfolding check_compiler_flags check_linker_flags
empty_flag = (refl, refl)

abbrev pkg_config_list : List Text
pkg_config_list = codes "--atleast-version=1.22.3" ∷ codes "--cflags" ∷ []

pkg_config : check_pkg_config_flags plain cflags here pkg_config_list ≡ ok tt
unfolding check_pkg_config_flags
pkg_config = refl

rpath :
    check_linker_flags plain cflags here (
      codes "-Wl,-z,relro,-z,now"
      ∷ codes "-Wl,-R,/lib"
      ∷ codes "-Wl,-rpath,$ORIGIN"
      ∷ codes "-Wl,--warn-once"
      ∷ [])
    ≡ ok tt
unfolding check_linker_flags
rpath = refl

check_compiler_flags-Lacks_example : All (Lacks (codes "-fplugin")) compiler_list
check_compiler_flags-Lacks_example =
    check_compiler_flags-Lacks plain cflags here compiler_list (codes "-fplugin")
      (Memᴰ.tail (Memᴰ.head refl)) refl compiler_accepts

check_linker_flags-Lacks_example : All (Lacks (codes "@")) linker_list
check_linker_flags-Lacks_example =
    check_linker_flags-Lacks plain cflags here linker_list (codes "@") (Memᴰ.head refl) refl
      linker_push_state

internal_link : check_compiler_flags_for_internal_link plain cflags here compiler_list ≡ ok tt
unfolding check_compiler_flags_for_internal_link
internal_link = refl

check_compiler_flags_for_internal_link-Lacks_example : All (Lacks (codes "-flto")) compiler_list
check_compiler_flags_for_internal_link-Lacks_example =
    check_compiler_flags_for_internal_link-Lacks plain cflags here compiler_list (codes "-flto")
      (Memᴰ.head refl) internal_link

check_pkg_config_flags-IsLong_example : All IsLong pkg_config_list
check_pkg_config_flags-IsLong_example =
    check_pkg_config_flags-IsLong plain cflags here pkg_config_list pkg_config
