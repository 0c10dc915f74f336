-- ===== src/CgoFlags/Tables/Linker.antt =====
-- go/go2nix/pkg/compile/cgosecurity.go: the linker flag tables, in the order of the source.
use go2nix.Base.{List, [], ◌∷◌, Text, codes}
use go2nix.CgoFlags.Regex.{
  Regex, word, one_of, ◌▸◌, class, star, plus, opt, many, alt, stop, among, any_char, digit,
  not_at_comma, not_at_comma_dash, not_at_dash, not_comma,
}

abbrev pub invalid_linker_flags : List Regex
invalid_linker_flags = word "-lto_library" ∷ []

abbrev pub valid_linker_flags : List Regex
valid_linker_flags =
    (word "-F" ▸ (class not_at_dash ▸ star any_char))
    ∷ (word "-l" ▸ (class not_at_dash ▸ star any_char))
    ∷ (word "-L" ▸ (class not_at_dash ▸ star any_char))
    ∷ word "-O"
    ∷ (word "-O" ▸ (class not_at_dash ▸ star any_char))
    ∷ (word "-f" ▸ opt (word "no-") ▸ one_of ("pic" ∷ "PIC" ∷ "pie" ∷ "PIE" ∷ []))
    ∷ (word "-f" ▸ opt (word "no-") ▸ word "openmp" ▸ opt (word "-simd"))
    ∷ (word "-fsanitize=" ▸ (class not_at_dash ▸ star any_char))
    ∷ word "-flat_namespace"
    ∷ (word "-g" ▸ (opt ((class not_at_dash ▸ star any_char))))
    ∷ word "-headerpad_max_install_names"
    ∷ (word "-m"
        ▸ one_of ("abi" ∷ "arch" ∷ "cpu" ∷ "fpu" ∷ "simd" ∷ "tls-dialect" ∷ "tune" ∷ [])
        ▸ word "="
        ▸ (class not_at_dash ▸ star any_char))
    ∷ (word "-mcmodel=" ▸ plus (among ((b'-', b'-') ∷ (b'0', b'9') ∷ (b'a', b'z') ∷ [])))
    ∷ (word "-mfloat-abi=" ▸ (class not_at_dash ▸ star any_char))
    ∷ (word "-m" ▸ one_of ("soft" ∷ "single" ∷ "double" ∷ []) ▸ word "-float")
    ∷ (word "-m" ▸ opt (word "no-") ▸ word "relax")
    ∷ (word "-m" ▸ opt (word "no-") ▸ word "strict-align")
    ∷ (word "-m"
        ▸ opt (word "no-")
        ▸ one_of ("lsx" ∷ "lasx" ∷ "frecipe" ∷ "div32" ∷ "lam-bh" ∷ "lamcas" ∷ "ld-seq-sa" ∷ []))
    ∷ (word "-mmacosx-" ▸ plus any_char)
    ∷ (word "-mios-simulator-version-min=" ▸ plus any_char)
    ∷ (word "-miphoneos-version-min=" ▸ plus any_char)
    ∷ word "-mthreads"
    ∷ word "-mwindows"
    ∷ (word "-" ▸ one_of ("pic" ∷ "PIC" ∷ "pie" ∷ "PIE" ∷ []))
    ∷ word "-pthread"
    ∷ word "-rdynamic"
    ∷ word "-shared"
    ∷ (opt (word "-")
        ▸ word "-static"
        ▸ star (among ((b'+', b'+') ∷ (b'-', b'-') ∷ (b'0', b'9') ∷ (b'a', b'z') ∷ [])))
    ∷ (opt (word "-") ▸ word "-stdlib=" ▸ (class not_at_dash ▸ star any_char))
    ∷ word "-v"
    ∷ (word "-Wl,--" ▸ opt (word "no-") ▸ word "allow-multiple-definition")
    ∷ (word "-Wl,--" ▸ opt (word "no-") ▸ word "allow-shlib-undefined")
    ∷ (word "-Wl,--" ▸ opt (word "no-") ▸ word "as-needed")
    ∷ word "-Wl,-Bdynamic"
    ∷ word "-Wl,-berok"
    ∷ word "-Wl,-Bstatic"
    ∷ word "-Wl,-Bsymbolic-functions"
    ∷ (word "-Wl,-O" ▸ plus digit)
    ∷ (word "-Wl,-d" ▸ class (among ((b'n', b'n') ∷ (b'y', b'y') ∷ [])))
    ∷ word "-Wl,--disable-new-dtags"
    ∷ (word "-Wl,-e"
        ▸ class (among ((b',', b',') ∷ (b'=', b'=') ∷ []))
        ▸ plus (among ((b'0', b'9') ∷ (b'A', b'Z') ∷ (b'a', b'z') ∷ [])))
    ∷ word "-Wl,--enable-new-dtags"
    ∷ word "-Wl,--end-group"
    ∷ (word "-Wl,--" ▸ opt (word "no-") ▸ word "export-dynamic")
    ∷ word "-Wl,-E"
    ∷ (word "-Wl,-framework," ▸ class not_at_comma_dash ▸ star not_comma)
    ∷ (word "-Wl,--hash-style=" ▸ one_of ("sysv" ∷ "gnu" ∷ "both" ∷ []))
    ∷ word "-Wl,-headerpad_max_install_names"
    ∷ word "-Wl,--no-undefined"
    ∷ word "-Wl,--pop-state"
    ∷ word "-Wl,--push-state"
    ∷ (word "-Wl,-R" ▸ opt (word ",") ▸ (class not_at_comma_dash ▸ star not_at_comma ▸ stop))
    ∷ (word "-Wl,--just-symbols"
        ▸ class (among ((b',', b',') ∷ (b'=', b'=') ∷ []))
        ▸ (class not_at_comma_dash ▸ star not_at_comma))
    ∷ (word "-Wl,-rpath"
        ▸ opt (word "-link")
        ▸ class (among ((b',', b',') ∷ (b'=', b'=') ∷ []))
        ▸ (class not_at_comma_dash ▸ star not_comma))
    ∷ word "-Wl,-s"
    ∷ word "-Wl,-search_paths_first"
    ∷ (word "-Wl,-sectcreate,"
        ▸ (class not_at_comma_dash ▸ star not_comma)
        ▸ word ","
        ▸ (class not_at_comma_dash ▸ star not_comma)
        ▸ word ","
        ▸ (class not_at_comma_dash ▸ star not_comma))
    ∷ word "-Wl,--start-group"
    ∷ (word "-Wl," ▸ opt (word "-") ▸ word "-static")
    ∷ (word "-Wl,"
        ▸ opt (word "-")
        ▸ word "-subsystem,"
        ▸ one_of ("native" ∷ "windows" ∷ "console" ∷ "posix" ∷ "xbox" ∷ []))
    ∷ (word "-Wl,-syslibroot"
        ▸ class (among ((b',', b',') ∷ (b'=', b'=') ∷ []))
        ▸ (class not_at_comma_dash ▸ star not_comma))
    ∷ (word "-Wl,-undefined"
        ▸ class (among ((b',', b',') ∷ (b'=', b'=') ∷ []))
        ▸ (class not_at_comma_dash ▸ star not_comma))
    ∷ (word "-Wl," ▸ opt (word "-") ▸ word "-unresolved-symbols=" ▸ plus not_comma)
    ∷ (word "-Wl,--" ▸ opt (word "no-") ▸ word "warn-" ▸ plus not_comma)
    ∷ (word "-Wl,"
        ▸ opt (word "-")
        ▸ word "-wrap"
        ▸ class (among ((b',', b',') ∷ (b'=', b'=') ∷ []))
        ▸ class not_at_comma_dash
        ▸ star not_comma)
    ∷ (word "-Wl"
        ▸ (many (
            (word ",-z,"
              ▸ ((alt (word "relro") (alt (word "now") (opt (word "no") ▸ word "execstack"))))))))
    ∷ (class (among ((b'/', b'/') ∷ (b'0', b'9') ∷ (b'A', b'Z') ∷ (b'_', b'_') ∷ (b'a', b'z') ∷ []))
        ▸ star any_char
        ▸ word "."
        ▸ one_of ("a" ∷ "o" ∷ "obj" ∷ "dll" ∷ "dylib" ∷ "so" ∷ "tbd" ∷ []))
    ∷ (word "./"
        ▸ star any_char
        ▸ word "."
        ▸ one_of ("a" ∷ "o" ∷ "obj" ∷ "dll" ∷ "dylib" ∷ "so" ∷ "tbd" ∷ []))
    ∷ []

abbrev pub valid_linker_flags_with_next_arg : List Text
valid_linker_flags_with_next_arg =
    codes "-arch"
    ∷ codes "-F"
    ∷ codes "-l"
    ∷ codes "-L"
    ∷ codes "-framework"
    ∷ codes "-isysroot"
    ∷ codes "--sysroot"
    ∷ codes "-target"
    ∷ codes "-Wl,-framework"
    ∷ codes "-Wl,-rpath"
    ∷ codes "-Wl,-R"
    ∷ codes "-Wl,--just-symbols"
    ∷ codes "-Wl,-undefined"
    ∷ []
