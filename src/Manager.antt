-- ===== src/Manager.antt =====
-- sunbeam_migrate/manager.py: `SunbeamMigrationManager`.
pub mod Env
pub mod Lookup
pub mod Cleanup
pub mod Parent
pub mod Members
pub mod DryRun
pub mod Perform
pub mod Batch
pub mod Contract
pub mod Outcome
pub mod Resolution
pub mod Depth
pub mod Progress
