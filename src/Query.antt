-- ===== src/Query.antt =====
-- src/query: SQL text, its placeholders and parameters, prepared statements and result sets.
pub mod Scan
pub mod Parameter
pub mod Statement
pub mod Prepared
pub mod Results
