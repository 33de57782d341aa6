-- ===== src/Migration.antt =====
-- src/cli/migrate-local-storage.ts: copying the files of the local driver into Neon.
pub mod Walk
pub mod Run
pub mod Main
pub mod Kept
pub mod Complete
pub mod Predicted
pub mod Untouched
mod Tests
