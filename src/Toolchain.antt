-- ===== src/Toolchain.antt =====
-- go/go2nix/pkg/compile/util.go: what a compile asks of the toolchain. Environment variables and
-- the values of `go env` are arguments.
pub mod Version
pub mod Concurrency
pub mod Defines
mod Tests
