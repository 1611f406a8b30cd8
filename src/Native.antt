-- ===== src/Native.antt =====
-- src/transport/native: the binary protocol.
pub mod Constants
pub mod Framing
pub mod Response
pub mod Attributes
pub mod Batches
