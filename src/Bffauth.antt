-- ===== src/Bffauth.antt =====
-- internal/bffauth: nodes authenticate with each other by a challenge (provider.go, jwt.go,
-- session.go, challenge.go).
mod Defs
unfoldable pub use Defs.*
pub mod Single
pub mod Honest
pub mod Sample
mod Tests
