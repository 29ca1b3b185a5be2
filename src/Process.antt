-- ===== src/Process.antt =====
-- internal/process: process IDs, the driver interface and the manager over the drivers
-- (process.go, driver.go, manager.go).
mod Defs
pub mod Ids
pub mod Routing
pub mod Restore
mod Tests
unfoldable pub use Defs.*
