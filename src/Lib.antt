-- ===== src/Lib.antt =====
-- go2nix builds Go programs with Nix, one derivation for each package. `go2nix generate` writes a
-- lockfile with a hash for every module of a go.mod, `check-lockfile` compares the two, and the
-- experimental resolver lists the packages of a program, builds their graph, sorts it, and writes
-- a derivation for each. Compiling a package checks the flags of its cgo directives first, and
-- linking embeds what is known of the build.
--
-- - Base: strings as lists of code points, maps with string keys as association lists with one
--   entry to a key, errors as results, and numbers.
-- - Toposort (go/go2nix/pkg/toposort/toposort.go): `visit` is the closure of Sort and `toposort`
--   is Sort.
-- - CgoFlags (go/go2nix/pkg/compile/cgosecurity.go): Tables has the expressions, Regex and Match
--   the search that Go's regexp makes for such expressions, Check the function checkFlags and
--   its callers.
-- - Lock: Mods is golist.CollectGoModModules, Check is lockfile.Read and mvscheck.CheckLockfile,
--   and Generate is lockfilegen.Generate.
-- - NixDrv (go/go2nix/pkg/nixdrv): Names is sanitize.go, Derivation and Json are derivation.go,
--   Placeholder is placeholder.go and Aterm is drvpath.go.
-- - BuildInfo (go/go2nix/pkg/buildinfo): Godebug is godebug.go and Info is buildinfo.go.
-- - Toolchain (go/go2nix/pkg/compile/util.go): language versions, concurrency and assembler
--   defines.
-- - Compile (go/go2nix/pkg/compile/compile.go): the checks of CompileGoPackage, the way that it
--   chooses, and the flags for the compiler.
-- - Importcfg (go/go2nix/pkg/compile/manifest.go): MergeImportcfg, with the content of the
--   merged file as its result.
-- - Scripts (go/go2nix/pkg/resolve/builder.go): the scripts of builders, and in Scripts.Quote a
--   reader of the words of a shell, for what is quoted and plain; it refuses what a shell treats
--   specially.
-- - Graph (go/go2nix/pkg/resolve/graph.go, with the packages and modules of
--   go/go2nix/pkg/golist/golist.go): `build_package_graph`, and `topo_sort`, which is Toposort
--   on the graph. Its keys are those of the lockfile in Lock.
-- - Manifest (go/go2nix/pkg/compile/manifest.go): the manifests that are read as JSON, and the
--   files that they give.
-- - Resolver (go/go2nix/pkg/resolve/resolve.go): Config has what the resolver is run with and,
--   as Tools, what it asks for; Inputs is discoverInputPaths, Package buildPackageDrv, Steps the
--   loops that stage, build and register, Closure transitiveClosure, Parts and Link
--   buildFinalDrv, Modules buildModuleFODs and buildFODs, and Run is Resolve from the listed
--   packages to the final derivation. The fields SrcStorePath and DrvPath of a package, which
--   the steps set, are maps by import path here, which the steps hand on.
-- - Search: the depth-first walk that discoverInputPaths and affectedLocalDeps make.
-- - LocalPackages (go/go2nix/pkg/localpkgs/localpkgs.go): LocalPkg, which TestRunner takes.
-- - Embeds (go/go2nix/pkg/gofiles/gofiles.go): MergeEmbedCfg.
-- - TestRunner (go/go2nix/pkg/testrunner/testrunner.go): Affected is affectedLocalDeps, Override
--   overrideImportCfgEntry, Step the importcfgs and the calls of the compiler, which are the
--   state of runPackageTests in Run, and Scope is Run.
--
-- Some definitions recur on fuel. `visit` takes the depth of the recursion: more than the number
-- of the keys that the sort can come to is enough, which is what `topo_sort` gives it. The
-- expressions of CgoFlags repeat a group at most as often as the text is long, since a repetition
-- takes a character at least. `search_queue` takes two more than the number of keys of the graph,
-- since a package enters the queue once. `depth_walk` takes the depth of the recursion, which the
-- number of keys bounds, since it goes on only from a key that is new. `spread` takes two more
-- than the number of local packages, since each enters the queue once.
--
-- A method that changes a derivation returns the changed one: its maps are read through no other
-- name. The tasks of Generate that hash modules run at the same time, and each writes its own keys
-- behind a lock, so the order in which they end is an argument.
--
-- What is not written in Go here is an argument or a parameter: golang.org/x/mod (a parsed go.mod,
-- the printing of a module version), go-nix (store paths, base 32, the ATerm of a derivation and
-- the paths of outputs), the decoding of TOML and JSON, SHA-256 and the compiling of expressions
-- that a user sets. So are `filepath.Rel` and the table of settings of a toolchain, which
-- go/parser reads. A store is what it answers: adding a derivation is a function of the derivation
-- and of what the store holds, adding a source one of its name and files, and building one of what
-- is to be built.
--
-- `filepath.Join` in the test runner puts a slash between names that are clean. Commands that are
-- run, files that are read and written, the Nix daemon, the generated test mains, and the command
-- line are not modelled; where Compile, Importcfg, Resolver and TestRunner wait for what they
-- answer, the answers are arguments.
pub mod Base
pub mod Toposort
pub mod CgoFlags
pub mod Lock
pub mod NixDrv
pub mod BuildInfo
pub mod Toolchain
pub mod Graph
pub mod Scripts
pub mod Compile
pub mod Importcfg
pub mod Manifest
pub mod Search
pub mod Resolver
pub mod LocalPackages
pub mod Embeds
pub mod TestRunner
