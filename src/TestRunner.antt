-- ===== src/TestRunner.antt =====
-- go/go2nix/pkg/testrunner/testrunner.go: which packages are compiled again for a test, and with what.
mod Tests
pub mod Affected
pub mod Override
pub mod Step
pub mod Run
pub mod Scope
pub mod Entered
pub mod Consistent
pub mod Tested
