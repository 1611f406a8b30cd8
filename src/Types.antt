-- ===== src/Types.antt =====
-- src/types: the Exasol column types, their mapping to Arrow, and inferred schemas.
pub mod Mapping
pub mod Infer
