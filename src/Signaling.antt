-- ===== src/Signaling.antt =====
-- internal/signaling: pairing codes and device keys, the checks on signalling messages, and the
-- rooms that pass them between the desktop and the mobile device.
pub mod Store
pub mod Validation
pub mod Room
pub mod Server
mod Examples
