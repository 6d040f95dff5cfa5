-- ===== src/Cmd/Delete.antt =====
-- cmd/delete.py and cmd/restore.py.
use sunbeam_migrate.Prelude.{Bool, not, ◌&&◌, if◌then◌else◌}
use sunbeam_migrate.Exec.{Exec, raise, click_exception}
use sunbeam_migrate.Db.Models.{Db, Backend}
use sunbeam_migrate.Db.Api.{Filters}
use sunbeam_migrate.Db.Api
use sunbeam_migrate.Cmd.Options.{Selection, selection_filters, has_filters, flag}

-- The filters of `delete`, with `--archived`.
unfoldable pub delete_filters : Selection → Bool → Filters
unfolding selection_filters
delete_filters o archived = record (selection_filters o) { archived = flag archived }

module _ (b : Backend) where
  unfoldable pub delete_migrations : Selection → Bool → Bool → Bool → Exec Db (Unit {0})
  unfolding delete_filters has_filters
  delete_migrations o archived hard all_migrations =
      let filters = delete_filters o archived in
      if not (has_filters filters) && not all_migrations
      then raise click_exception
      else Api.delete_migrations b (not hard) filters

  unfoldable pub restore_migrations : Selection → Exec Db (Unit {0})
  unfolding selection_filters
  restore_migrations o = Api.restore_migrations b (selection_filters o)
