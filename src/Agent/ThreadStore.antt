-- ===== src/Agent/ThreadStore.antt =====
-- internal/agent/thread_store.go, in child modules: the structs, the functions on texts, the file,
-- the methods, and the proofs.
pub mod State
pub mod Titles
pub mod Disk
pub mod Methods
pub mod Reload
pub mod Journal
pub mod Lookups
