-- ===== src/Resolver.antt =====
-- go/go2nix/pkg/resolve/resolve.go: the resolver, which makes a derivation of each package.
pub mod Tests
pub mod Config
pub mod Inputs
pub mod Package
pub mod Steps
pub mod Kept
pub mod Built
pub mod Staged
pub mod Registered
pub mod Run
pub mod Resolved
pub mod Closure
pub mod Parts
pub mod Link
pub mod Linked
pub mod Final
pub mod Modules
pub mod Unsupported
