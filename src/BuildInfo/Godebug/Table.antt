-- ===== src/BuildInfo/Godebug/Table.antt =====
-- go/go2nix/pkg/buildinfo/godebug.go: the copy of the toolchain's table of settings.
use go2nix.Base.{ℕ, List, [], ◌∷◌, Text, codes}
use Prim.Native.String.{String}

pub record Entry : Type 0 where
  pub name : Text
  pub changed : ℕ
  pub old : Text
  pub removed : ℕ

-- A row, with `removed` 0 for a setting that is still there.
abbrev pub row : String → ℕ → String → ℕ → Entry
row name changed old removed = record {
  name = codes name;
  changed = changed;
  old = codes old;
  removed = removed;
}

abbrev pub godebug_table : List Entry
godebug_table =
    row "asynctimerchan" 23 "1" 27
    ∷ row "containermaxprocs" 25 "0" 0
    ∷ row "cryptocustomrand" 26 "1" 0
    ∷ row "decoratemappings" 25 "0" 0
    ∷ row "gotestjsonbuildtext" 24 "1" 0
    ∷ row "gotypesalias" 23 "0" 27
    ∷ row "httpcookiemaxnum" 24 "0" 0
    ∷ row "httplaxcontentlength" 22 "1" 0
    ∷ row "httpmuxgo121" 22 "1" 0
    ∷ row "httpservecontentkeepheaders" 23 "1" 0
    ∷ row "httpservecontentmaxranges" 26 "1" 0
    ∷ row "multipathtcp" 24 "0" 0
    ∷ row "netedns0" 19 "0" 0
    ∷ row "panicnil" 21 "1" 0
    ∷ row "randseednop" 24 "0" 0
    ∷ row "rsa1024min" 24 "0" 0
    ∷ row "tls10server" 22 "1" 27
    ∷ row "tls3des" 23 "1" 27
    ∷ row "tlsmlkem" 24 "0" 0
    ∷ row "tlsrsakex" 22 "1" 27
    ∷ row "tlssecpmlkem" 26 "0" 0
    ∷ row "tlssha1" 25 "1" 0
    ∷ row "tlsunsafeekm" 22 "1" 27
    ∷ row "tracebacklabels" 27 "0" 0
    ∷ row "updatemaxprocs" 25 "0" 0
    ∷ row "urlmaxqueryparams" 24 "0" 0
    ∷ row "urlstrictcolons" 26 "0" 0
    ∷ row "winreadlinkvolume" 23 "0" 0
    ∷ row "winsymlink" 23 "0" 0
    ∷ row "x509keypairleaf" 23 "0" 27
    ∷ row "x509negativeserial" 23 "1" 0
    ∷ row "x509rsacrt" 24 "0" 0
    ∷ row "x509sha256skid" 25 "0" 0
    ∷ row "x509sslcertoverrideplatform" 27 "0" 0
    ∷ row "x509usepolicies" 24 "0" 0
    ∷ []
