-- ===== src/Lock.antt =====
-- The lockfile: pkg/golist (the modules of a go.mod), pkg/mvscheck, pkg/lockfile and
-- pkg/lockfilegen of go/go2nix.
pub mod Mods
pub mod Check
pub mod Generate
pub mod Collected
pub mod RoundTrip
pub mod Exact
pub mod Provenance
mod Tests
