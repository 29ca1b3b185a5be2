-- ===== src/Auth.antt =====
-- internal/auth: the OAuth client of a node, its sessions and DPoP.
pub mod Types
pub mod Session
pub mod Dpop
pub mod Nonce
pub mod Broker
pub mod Client
pub mod Signin
pub mod Login
pub mod Callback
pub mod Refreshing
pub mod Sample
mod Tests
