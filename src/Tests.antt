-- ===== src/Tests.antt =====
-- The modules' theorems at concrete inputs, and tests.
pub mod Platforms
mod Sql
mod Pages
mod Wire
mod Response
mod Files
mod Sessions
mod Servers
mod Adbc
mod Batches
mod Http
mod Columns
