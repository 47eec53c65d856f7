-- ===== src/Control.antt =====
-- The part of internal/agent that stands between the transports and the orchestrator.
pub mod Router
pub mod Profiles
mod Examples
