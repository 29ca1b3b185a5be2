-- ===== src/State.antt =====
-- internal/node/state: the node's state, its migrations, transitions and database.
pub mod Types
pub mod Codec
pub mod Effects
pub mod CodecLaws
pub mod Schema
pub mod Migrations
pub mod Transitions
pub mod Propose
pub mod Db
pub mod Invariant
pub mod Sample
mod Tests
