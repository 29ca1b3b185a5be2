-- ===== src/Oauthserver.antt =====
-- internal/oauthserver: the OAuth server over fosite.
mod Defs
unfoldable pub use Defs.*
pub mod Handlers
pub mod Flashes
pub mod Tokens
pub mod Sample
mod Tests
