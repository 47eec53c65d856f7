-- ===== src/Agent/Orchestrator.antt =====
-- internal/agent/orchestrator.go, in child modules: the state and the steps of a handler, the commands,
-- and the proofs.
pub mod State
pub mod Steps
pub mod Commands
pub mod Replies
pub mod StepReplies
pub mod Answers
pub mod Paths
pub mod Patches
