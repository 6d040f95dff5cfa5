-- ===== src/Tests.antt =====
-- Concrete runs: a database, two clouds, and the theorems applied to them.
pub mod Database
pub mod World
pub mod Runs
pub mod Commands
pub mod Handlers
pub mod Depth
pub mod Services
