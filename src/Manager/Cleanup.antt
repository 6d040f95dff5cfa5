-- ===== src/Manager/Cleanup.antt =====
-- manager.py: `cleanup_migration_source`.
pub mod Row
use Prim.Native.String.{◌++◌ as str_append}
use sunbeam_migrate.Prelude.{String, true, some, not, List, [], ◌∷◌, set?, if◌then◌else◌}
use sunbeam_migrate.Constants.{Status}
use sunbeam_migrate.Exec.{Error, Exec, invalid_input, pure, raise, try_except, ◌>>=◌, ◌>>◌}
use sunbeam_migrate.Db.Models.{Migration, save}
use sunbeam_migrate.Handlers.Interface.{State, on_db, on_world}
use sunbeam_migrate.Handlers.Base.{text_of}
use sunbeam_migrate.Manager.Env.{Env}
use sunbeam_migrate.Manager.Lookup.{get_handler}

-- Assignments to the attributes of a migration.
abbrev pub set_status : Status → Migration → Migration
set_status s m = record m { status = some s }

abbrev pub set_failure : Status → String → Migration → Migration
set_failure s text m = record m { status = some s; error_message = some text }

abbrev pub set_source_removed : Migration → Migration
set_source_removed m = record m { source_removed = true }

abbrev pub set_destination : String → Migration → Migration
set_destination d m = record m { destination_id = some d }

module _ {W : Type 0} (env : Env W) where
  -- `migration.… = …; migration.save()`
  abbrev pub store : (Migration → Migration) → Migration → Exec (State W) Migration
  store set m = on_db (save env.backend set m)

  -- The `try` block: delete the source, and record that it is gone.
  unfoldable pub remove_source : Migration → Exec (State W) Migration
  unfolding get_handler
  remove_source m = do
    h ← get_handler env m.resource_type
    on_world (h.delete_source_resource (text_of m.source_id)) >> store set_source_removed m

  -- The `except` block: record the failure and raise again.
  unfoldable pub cleanup_failed : Migration → Error → Exec (State W) Migration
  cleanup_failed m e =
      store
        (set_failure Status.source_cleanup_failed
          (str_append "Source cleanup failed, error: " (env.repr e)))
        m
      >> raise e

  unfoldable pub cleanup_migration_source : Migration → Exec (State W) Migration
  unfolding remove_source cleanup_failed
  cleanup_migration_source m =
      if not (set? m.source_id)
      then raise invalid_input
      else try_except (remove_source m) (cleanup_failed m)

  -- `for associated_migration in associated_migrations:`
  unfoldable pub cleanup_sources : List Migration → Exec (State W) (Unit {0})
  unfolding cleanup_migration_source
  cleanup_sources [] = pure tt
  cleanup_sources (m ∷ ms) = let rest = cleanup_sources ms in cleanup_migration_source m >> rest
