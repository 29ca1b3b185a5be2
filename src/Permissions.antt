-- ===== src/Permissions.antt =====
-- internal/permissions: the store of permissions over SQLite (sqlite_store.go).
mod Defs
unfoldable pub use Defs.*
pub mod Access
pub mod Removing
pub mod Sample
mod Tests
