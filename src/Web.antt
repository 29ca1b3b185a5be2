-- ===== src/Web.antt =====
-- internal/web: the package manager of web bundles.
pub mod Defs
pub mod Extraction
mod Tests
