-- ===== src/Relay.antt =====
-- internal/relay: sessions that pass packets between peers, and the hub of sessions.
pub mod Session
pub mod Hub
pub mod Server
mod Examples
