-- ===== src/State/Migrations.antt =====
-- Data migrations (migrations.go).
mod Defs
mod Steps
unfoldable pub use Defs.*
unfoldable pub use Steps.*
pub mod Range
