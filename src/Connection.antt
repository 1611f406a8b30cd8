-- ===== src/Connection.antt =====
-- src/connection: the session's life cycle and the server's release version.
pub mod Version
pub mod Session
pub mod Transport
