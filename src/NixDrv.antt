-- ===== src/NixDrv.antt =====
-- go/go2nix/pkg/nixdrv: the derivations that the experimental builder writes.
pub mod Names
pub mod Aterm
pub mod Derivation
pub mod Placeholder
pub mod Json
mod Tests
