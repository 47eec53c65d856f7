-- ===== src/Protocol.antt =====
-- internal/protocol: the message types, the payload structs, the envelope that carries them, and
-- encoding/json as an interface. The proofs are in the child modules.
pub mod Models
pub mod Envelope
pub mod TestCodec
mod Examples
