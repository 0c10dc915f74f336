-- ===== src/CgoFlags/Tables.antt =====
-- The allow lists of go/go2nix/pkg/compile/cgosecurity.go.
mod Compiler
mod Linker
mod PkgConfig
pub use Compiler.*
pub use Linker.*
pub use PkgConfig.*
