-- ===== src/BuildInfo.antt =====
-- go/go2nix/pkg/buildinfo: what the linker embeds about a build.
pub mod Spaces
pub mod Godebug
pub mod Info
mod Tests
