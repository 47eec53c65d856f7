-- ===== src/Agent/P2pSession.antt =====
-- internal/agent/p2p_session.go: the peer-to-peer sessions of the agent: the structs, and what starts
-- and ends a session.
-- The runtimes of sessions are shared with the goroutines that serve them: they are a list, and a
-- pointer is a place in it. The tracker of the manager and of its router is one object, the router's.
-- `now` is the clock in nanoseconds; the readings within one step are one. The answers of the network
-- and of the libraries for HTTP, URLs, web sockets and WebRTC are arguments. `start` and `stop` give the
-- manager and the error; the status that the methods return as well is the manager's, by `status_of`.
pub mod State
pub mod Lifecycle
pub mod Loops
pub mod Flags
pub mod Rounds
pub mod Events
pub mod Places
pub mod Sessions
mod Examples
