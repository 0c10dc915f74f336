-- ===== src/CgoFlags.antt =====
-- go/go2nix/pkg/compile/cgosecurity.go: which #cgo and pkg-config flags a package may set.
pub mod Regex
pub mod Tables
pub mod Prefix
pub mod Match
pub mod Check
pub mod Refuse
pub mod Safe
pub mod PkgConfig
mod Tests
