-- ===== src/Adbc.antt =====
-- src/adbc/connection.rs and the transaction part of src/adbc_ffi.rs.
pub mod Connection
pub mod Prepared
pub mod Control
pub mod Connect
pub mod Options
