-- ===== src/State/Invariant.antt =====
-- The invariant of the node state, and that transitions keep it.
mod Defs
pub use Defs.*
mod Users
mod Installations
mod Processes
pub mod Steps
mod Changes
mod Migrating
pub mod Runs
