-- ===== src/Db.antt =====
-- sunbeam_migrate/db: the table of migrations (db/models.py) and its queries (db/api.py). The
-- table is a list of rows, each new row at its end.
pub mod Models
pub mod Api
pub mod History
