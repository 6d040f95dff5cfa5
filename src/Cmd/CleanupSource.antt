-- ===== src/Cmd/CleanupSource.antt =====
-- cmd/cleanup_source.py.
use sunbeam_migrate.Prelude.{
  String, Bool, false, not, ◌&&◌, Option, some, List, [], ◌∷◌, if◌then◌else◌,
}
use sunbeam_migrate.Constants.{Status, status_text}
use sunbeam_migrate.Exec.{Exec, pure, raise, gets, click_exception, ◌>>=◌, ◌>>◌}
use sunbeam_migrate.Db.Models.{Migration}
use sunbeam_migrate.Db.Api.{Filters, no_filters, get_migrations}
use sunbeam_migrate.Handlers.Interface.{State}
use sunbeam_migrate.Manager.Env.{Env}
use sunbeam_migrate.Manager.Cleanup.{cleanup_migration_source}
use sunbeam_migrate.Cmd.Options.{given, has_filters}

-- The filters from the options, before the status is added.
unfoldable pub cleanup_options : Option String → Option String → Option String → Filters
cleanup_options service resource_type source_id = record no_filters {
  service = given service;
  resource_type = given resource_type;
  source_id = given source_id;
}

-- `filters["status"] = STATUS_COMPLETED; filters["source_removed"] = False`
unfoldable pub cleanup_filters : Filters → Filters
unfolding status_text
cleanup_filters f = record f {
  status = some (status_text Status.completed);
  source_removed = some false;
}

module _ {W : Type 0} (env : Env W) where
  unfoldable pub cleanup_each : Bool → List Migration → Exec (State W) (Unit {0})
  cleanup_each dry_run [] = pure tt
  cleanup_each dry_run (m ∷ ms) =
      let rest = cleanup_each dry_run ms in
      if dry_run then rest else (cleanup_migration_source env m >> rest)

  unfoldable pub cleanup_migration_sources :
      Option String → Option String → Option String → Bool → Bool → Exec (State W) (Unit {0})
  unfolding cleanup_options cleanup_filters cleanup_each has_filters
  cleanup_migration_sources service resource_type source_id all_migrations dry_run =
      let filters = cleanup_options service resource_type source_id in
      if not (has_filters filters) && not all_migrations && not dry_run
      then raise click_exception
      else (do
        db ← gets (λ s. s.db)
        cleanup_each dry_run (get_migrations env.backend false false (cleanup_filters filters) db))
