-- ===== src/Agent.antt =====
-- internal/agent: the threads of a conversation, the workspace adapter's interface, the orchestrator of
-- the commands, the metrics of the control path, and the peer-to-peer sessions.
pub mod ThreadStore
pub mod Adapter
pub mod Orchestrator
pub mod ControlMetrics
pub mod P2pSession
mod Examples
