-- ===== src/Proxy.antt =====
-- internal/node/reverse_proxy: the rule set and the choice of a rule for a request (proxy.go,
-- rules.go, server.go, handler.go).
mod Defs
unfoldable pub use Defs.*
pub mod Match
pub mod Best
pub mod Rules
pub mod Answers
mod Tests
