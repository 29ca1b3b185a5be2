-- ===== src/Privi.antt =====
-- internal/privi: private records behind permissions (privi.go, repo.go, server.go).
mod Defs
unfoldable pub use Defs.*
pub mod Reading
pub mod Server
pub mod Serving
mod Tests
