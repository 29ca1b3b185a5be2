-- ===== src/State/Propose.antt =====
-- Proposing transitions to a serialized state (json.go, types.go).
mod Defs
unfoldable pub use Defs.*
mod Apply
pub mod Parts
mod Migrating
pub mod Refines
pub mod Runs
