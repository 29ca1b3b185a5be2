-- ===== src/State/Db.antt =====
-- The file-backed database (db.go).
mod Defs
unfoldable pub use Defs.*
pub mod Atomic
pub mod Outcome
