-- ===== src/Runtime.antt =====
-- internal/runtime: the tracker of unacknowledged messages and the connection state manager.
pub mod AckTracker
pub mod StateManager
mod Examples
