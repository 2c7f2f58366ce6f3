-- ===== src/Store.antt =====
-- The persistent state that the services work on.
pub mod Rows
pub mod Ids
pub mod Schema
pub mod Requests
pub mod Metrics
pub mod World
pub mod References
pub mod Samples
