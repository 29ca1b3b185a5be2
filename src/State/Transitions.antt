-- ===== src/State/Transitions.antt =====
-- The transitions of the node state (transitions.go, types.go).
mod Defs
mod Create
unfoldable pub use Defs.*
unfoldable pub use Create.*
pub mod Step
