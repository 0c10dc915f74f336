-- ===== src/CgoFlags/Tables/Compiler.antt =====
-- go/go2nix/pkg/compile/cgosecurity.go: the compiler flag tables, in the order of the source.
use go2nix.Base.{List, [], ◌∷◌, Text, codes}
use go2nix.CgoFlags.Regex.{
  Regex, word, one_of, ◌▸◌, class, star, plus, opt, among, any_char, digit, not_at, not_at_comma,
  not_at_comma_dash, not_at_dash, word_char, word_start,
}

abbrev pub valid_compiler_flags : List Regex
valid_compiler_flags =
    (word "-D" ▸ (class word_start ▸ star word_char) ▸ (opt ((word "=" ▸ star not_at_dash))))
    ∷ (word "-U" ▸ (class word_start ▸ star word_char))
    ∷ (word "-F" ▸ (class not_at_dash ▸ star any_char))
    ∷ (word "-I" ▸ (class not_at_dash ▸ star any_char))
    ∷ word "-O"
    ∷ (word "-O" ▸ (class not_at_dash ▸ star any_char))
    ∷ word "-W"
    ∷ (word "-W" ▸ plus not_at_comma)
    ∷ word "-Wa,-mbig-obj"
    ∷ (word "-Wp,-D"
        ▸ (class word_start ▸ star word_char)
        ▸ (opt ((word "=" ▸ star not_at_comma_dash))))
    ∷ (word "-Wp,-U" ▸ (class word_start ▸ star word_char))
    ∷ word "-ansi"
    ∷ (word "-f" ▸ opt (word "no-") ▸ word "asynchronous-unwind-tables")
    ∷ (word "-f" ▸ opt (word "no-") ▸ word "blocks")
    ∷ (word "-f" ▸ word "no-" ▸ word "builtin-" ▸ star word_char)
    ∷ (word "-f" ▸ opt (word "no-") ▸ word "common")
    ∷ (word "-f" ▸ opt (word "no-") ▸ word "constant-cfstrings")
    ∷ (word "-fdebug-prefix-map=" ▸ plus not_at ▸ word "=" ▸ plus not_at)
    ∷ word "-fdiagnostics-show-note-include-stack"
    ∷ (word "-ffile-prefix-map=" ▸ plus not_at ▸ word "=" ▸ plus not_at)
    ∷ word "-fno-canonical-system-headers"
    ∷ (word "-f" ▸ opt (word "no-") ▸ word "eliminate-unused-debug-types")
    ∷ (word "-f" ▸ opt (word "no-") ▸ word "exceptions")
    ∷ (word "-f" ▸ opt (word "no-") ▸ word "fast-math")
    ∷ (word "-f" ▸ opt (word "no-") ▸ word "inline-functions")
    ∷ (word "-finput-charset=" ▸ (class not_at_dash ▸ star any_char))
    ∷ (word "-f" ▸ opt (word "no-") ▸ word "fat-lto-objects")
    ∷ (word "-f" ▸ opt (word "no-") ▸ word "keep-inline-dllexport")
    ∷ (word "-f" ▸ opt (word "no-") ▸ word "lto")
    ∷ (word "-fmacro-backtrace-limit=" ▸ plus any_char)
    ∷ (word "-fmessage-length=" ▸ plus any_char)
    ∷ (word "-f" ▸ opt (word "no-") ▸ word "modules")
    ∷ (word "-f" ▸ opt (word "no-") ▸ word "objc-arc")
    ∷ (word "-f" ▸ opt (word "no-") ▸ word "objc-nonfragile-abi")
    ∷ (word "-f" ▸ opt (word "no-") ▸ word "objc-legacy-dispatch")
    ∷ (word "-f" ▸ opt (word "no-") ▸ word "omit-frame-pointer")
    ∷ (word "-f" ▸ opt (word "no-") ▸ word "openmp" ▸ opt (word "-simd"))
    ∷ (word "-f" ▸ opt (word "no-") ▸ word "permissive")
    ∷ (word "-f" ▸ opt (word "no-") ▸ one_of ("pic" ∷ "PIC" ∷ "pie" ∷ "PIE" ∷ []))
    ∷ (word "-f" ▸ opt (word "no-") ▸ word "plt")
    ∷ (word "-f" ▸ opt (word "no-") ▸ word "rtti")
    ∷ (word "-f" ▸ opt (word "no-") ▸ word "split-stack")
    ∷ (word "-f" ▸ opt (word "no-") ▸ word "stack-" ▸ plus any_char)
    ∷ (word "-f" ▸ opt (word "no-") ▸ word "strict-aliasing")
    ∷ (word "-f" ▸ word "un" ▸ word "signed-char")
    ∷ (word "-f" ▸ opt (word "no-") ▸ word "use-linker-plugin")
    ∷ (word "-f" ▸ opt (word "no-") ▸ word "visibility-inlines-hidden")
    ∷ (word "-fsanitize=" ▸ plus any_char)
    ∷ (word "-fsanitize-undefined-strip-path-components=" ▸ opt (word "-") ▸ plus digit)
    ∷ (word "-ftemplate-depth-" ▸ plus any_char)
    ∷ (word "-ftls-model="
        ▸ one_of ("global-dynamic" ∷ "local-dynamic" ∷ "initial-exec" ∷ "local-exec" ∷ []))
    ∷ (word "-fvisibility=" ▸ plus any_char)
    ∷ (word "-g" ▸ (opt ((class not_at_dash ▸ star any_char))))
    ∷ word "-m32"
    ∷ word "-m64"
    ∷ (word "-m"
        ▸ one_of ("abi" ∷ "arch" ∷ "cpu" ∷ "fpu" ∷ "simd" ∷ "tls-dialect" ∷ "tune" ∷ [])
        ▸ word "="
        ▸ (class not_at_dash ▸ star any_char))
    ∷ (word "-m" ▸ opt (word "no-") ▸ opt (word "v") ▸ word "aes")
    ∷ word "-marm"
    ∷ (word "-mcmodel=" ▸ plus (among ((b'-', b'-') ∷ (b'0', b'9') ∷ (b'a', b'z') ∷ [])))
    ∷ (word "-mfloat-abi=" ▸ (class not_at_dash ▸ star any_char))
    ∷ (word "-m" ▸ one_of ("soft" ∷ "single" ∷ "double" ∷ []) ▸ word "-float")
    ∷ (word "-mfpmath="
        ▸ star (among ((b'+', b'+') ∷ (b',', b',') ∷ (b'0', b'9') ∷ (b'a', b'z') ∷ [])))
    ∷ (word "-m"
        ▸ opt (word "no-")
        ▸ word "avx"
        ▸ star (among ((b'.', b'.') ∷ (b'0', b'9') ∷ (b'a', b'z') ∷ [])))
    ∷ (word "-m" ▸ opt (word "no-") ▸ word "ms-bitfields")
    ∷ (word "-m" ▸ opt (word "no-") ▸ word "stack-" ▸ plus any_char)
    ∷ (word "-mmacosx-" ▸ plus any_char)
    ∷ (word "-m" ▸ opt (word "no-") ▸ word "relax")
    ∷ (word "-m" ▸ opt (word "no-") ▸ word "strict-align")
    ∷ (word "-m"
        ▸ opt (word "no-")
        ▸ one_of ("lsx" ∷ "lasx" ∷ "frecipe" ∷ "div32" ∷ "lam-bh" ∷ "lamcas" ∷ "ld-seq-sa" ∷ []))
    ∷ (word "-mios-simulator-version-min=" ▸ plus any_char)
    ∷ (word "-miphoneos-version-min=" ▸ plus any_char)
    ∷ (word "-mlarge-data-threshold=" ▸ plus digit)
    ∷ (word "-mtvos-simulator-version-min=" ▸ plus any_char)
    ∷ (word "-mtvos-version-min=" ▸ plus any_char)
    ∷ (word "-mwatchos-simulator-version-min=" ▸ plus any_char)
    ∷ (word "-mwatchos-version-min=" ▸ plus any_char)
    ∷ word "-mnop-fun-dllimport"
    ∷ (word "-m" ▸ opt (word "no-") ▸ word "sse" ▸ star (among ((b'.', b'.') ∷ (b'0', b'9') ∷ [])))
    ∷ (word "-m" ▸ opt (word "no-") ▸ word "ssse3")
    ∷ (word "-mthumb" ▸ opt (word "-interwork"))
    ∷ word "-mthreads"
    ∷ word "-mwindows"
    ∷ word "-no-canonical-prefixes"
    ∷ (word "--param=ssp-buffer-size=" ▸ star digit)
    ∷ (word "-pedantic" ▸ opt (word "-errors"))
    ∷ word "-pipe"
    ∷ word "-pthread"
    ∷ word "--static"
    ∷ (opt (word "-") ▸ word "-std=" ▸ (class not_at_dash ▸ star any_char))
    ∷ (opt (word "-") ▸ word "-stdlib=" ▸ (class not_at_dash ▸ star any_char))
    ∷ (word "--sysroot=" ▸ (class not_at_dash ▸ star any_char))
    ∷ word "-w"
    ∷ (word "-x" ▸ (class not_at_dash ▸ star any_char))
    ∷ word "-v"
    ∷ []

abbrev pub valid_compiler_flags_with_next_arg : List Text
valid_compiler_flags_with_next_arg =
    codes "-arch"
    ∷ codes "-D"
    ∷ codes "-U"
    ∷ codes "-I"
    ∷ codes "-F"
    ∷ codes "-framework"
    ∷ codes "-include"
    ∷ codes "-isysroot"
    ∷ codes "-isystem"
    ∷ codes "--sysroot"
    ∷ codes "-target"
    ∷ codes "-x"
    ∷ []
