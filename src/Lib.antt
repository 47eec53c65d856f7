-- ===== src/Lib.antt =====
-- VibeDeck connects a phone to an editor on a desktop. A signalling server pairs the two devices and
-- passes their WebRTC messages on, a relay carries their packets when no direct connection comes
-- about, and the agent on the desktop keeps the state of the connection, resends what has not been
-- acknowledged and answers commands. All of them exchange the envelopes of internal/protocol.
--
-- Parts and files:
--   Prelude      Boolean tests, lists, options and integers that the other modules share.
--   GoMap        Go's map[string]V, as an association list with one entry to a key.
--   Text         the functions of Go's strings package that the servers call.
--   Protocol     internal/protocol: Models the structs, Envelope its methods, TestCodec an example
--                of a JSON codec.
--   Runtime      internal/runtime: AckTracker (State, Table, Sweeps: ack_tracker.go; the other
--                children are proofs) and StateManager (state_manager.go, types.go).
--   SessionStore internal/session/store.go.
--   Relay        internal/relay: Session (session.go), Hub (hub.go), Server (server.go).
--   Signaling    internal/signaling: Store (store.go, types.go), Validation (validation.go), Room and
--                Server (server.go).
--   Control      internal/agent: Router (control_router.go, ack_registration.go, control_timeouts.go),
--                Profiles (profiles.go).
--   Agent        internal/agent: ThreadStore (thread_store.go), Adapter (types.go, adapter_runtime_info.go,
--                mock_adapter.go), Orchestrator (orchestrator.go), ControlMetrics (control_metrics.go),
--                P2pSession (p2p_session.go).
--   Webrtc       internal/webrtc: Bridge (bridge.go, types.go).
--   The modules named Examples run the code on concrete values.
--
-- How the code is modelled. A struct is a record with the source's fields, without its mutex: a
-- method that holds the mutex is one step. What the code does between two locked regions is a
-- separate function, so that other steps can come in between (deliver of Relay.Session,
-- run_callback of Runtime.StateManager, remove_if_empty of Relay.Hub). Objects behind pointers that
-- are shared (channels, relay sessions, pairings) are entries of a heap, and a pointer is an
-- index. A panic is a value, Outcome.panic. A connection of a room is a number.
-- Go leaves the order of a map's iteration open; here it is the order of the list, and the
-- statements speak of the lookup of a key.
-- Instants and durations are natural numbers of nanoseconds, the retry delay is an int64 that wraps
-- around modulo 2^64, and the counters are not bounded. Loops are structural recursion on the
-- table, the list of targets or the list of envelopes that a socket yields; there is no fuel.
-- encoding/json is the record Codec with the property IsJson; the case table of strings.ToUpper, the
-- tokens of crypto/rand, the clock's readings, the results of socket writes and whether a reader
-- takes a packet in time are arguments. A queue size of 0 (an unbuffered channel) is left out
-- where a statement asks for a queue size of at least 1.
--
-- The orchestrator reads its clock as a sequence of instants; its adapter and the bridge's peer are
-- records of operations over a state of their own, which may fail at any call. A handler of the
-- orchestrator is a chain of steps that may end early with a reply. What the file system does with a
-- write of the thread store is one of three outcomes; the JSON that the store writes and reads is a pair
-- of functions that it is given. A cut inside a character of a text leaves its bytes, for each of
-- which a character of its own stands (Agent.ThreadStore.Titles). `Stop` of the sessions is three
-- steps, between which other calls may come.
--
-- Not modelled: the HTTP multiplexer, the upgrade to web sockets and the sockets; the agent's
-- HTTP server, text form of the metrics and editor adapters; the WebRTC peer;
-- the commands; and the programs in other languages.
mod Prelude
pub mod GoMap
pub mod Text
pub mod Protocol
pub mod Runtime
pub mod SessionStore
pub mod Relay
pub mod Signaling
pub mod Control
pub mod Agent
pub mod Webrtc
