-- ===== src/Lexgen.antt =====
-- cmd/lexgen: Go types from lexicons (main.go).
pub mod Names
pub mod Defs
pub mod Order
mod Tests
