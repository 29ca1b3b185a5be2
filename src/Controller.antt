-- ===== src/Controller.antt =====
-- internal/node/controller: the controller over database, drivers, package managers and proxy
-- (controller.go), and its HTTP server (server.go).
mod Defs
mod Apps
mod Server
unfoldable pub use Defs.*
unfoldable pub use Apps.*
unfoldable pub use Server.*
pub mod Starting
pub mod Stopping
pub mod Restoring
mod Tests
