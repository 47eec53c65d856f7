-- ===== src/Webrtc.antt =====
-- internal/webrtc: the signal bridge. The peer connection is an interface of the bridge.
pub mod Bridge
mod Examples
