-- ===== src/Cmd.antt =====
-- sunbeam_migrate/cmd: the commands. What they print is not modelled; a listing is the list of
-- migrations that is printed. An option that is not given is `none`.
pub mod Options
pub mod Delete
pub mod List
pub mod CleanupSource
pub mod RegisterExternal
pub mod Start
pub mod Shown
pub mod Colon
pub mod Safety
