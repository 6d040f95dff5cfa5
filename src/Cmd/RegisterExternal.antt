-- ===== src/Cmd/RegisterExternal.antt =====
-- cmd/register_external.py.
use sunbeam_migrate.Prelude.{String, true, false, not, Option, some, truthy, set?, if◌then◌else◌}
use sunbeam_migrate.Constants.{Status, status_text}
use sunbeam_migrate.Exec.{Exec, pure, raise, gets, click_exception, ◌>>=◌, ◌>>◌}
use sunbeam_migrate.Db.Models.{Migration, empty_migration}
use sunbeam_migrate.Db.Api.{Filters, no_filters, get_migrations}
use sunbeam_migrate.Handlers.Interface.{State, Handler}
use sunbeam_migrate.Handlers.Base.{text_of}
use sunbeam_migrate.Manager.Env.{Env}
use sunbeam_migrate.Manager.Lookup.{get_handler}
use sunbeam_migrate.Manager.Cleanup.{store}
use sunbeam_migrate.Manager.Parent.{is_empty}

-- The filters that find an equal registration.
unfoldable pub registered_filters : String → String → String → Filters
unfolding status_text
registered_filters t source destination = record no_filters {
  resource_type = some t;
  source_id = some source;
  destination_id = some destination;
  status = some (status_text Status.completed);
}

module _ {W : Type 0} (env : Env W) where
  unfoldable pub external_migration : Handler W → String → String → String → Migration
  external_migration h t source destination = record empty_migration {
    service = some h.service_type;
    source_cloud = env.conf.source_cloud_name;
    destination_cloud = env.conf.destination_cloud_name;
    source_id = some source;
    resource_type = some t;
    destination_id = some destination;
    status = some Status.completed;
    external = true;
  }

  -- The registration, when there is none.
  unfoldable pub register_new : String → String → String → Exec (State W) (Unit {0})
  unfolding external_migration
  register_new t source destination = do
    h ← get_handler env (some t)
    store env (λ x. x) (external_migration h t source destination)
    pure tt

  unfoldable pub register_external : Option String → String → String → Exec (State W) (Unit {0})
  unfolding registered_filters register_new
  register_external resource_type source destination =
      if not (truthy source)
      then raise click_exception
      else if not (truthy destination)
      then raise click_exception
      else if not (set? resource_type)
      then raise click_exception
      else (do
        let t = text_of resource_type
        db ← gets (λ s. s.db)
        if is_empty
              (get_migrations env.backend false false (registered_filters t source destination) db)
            then register_new t source destination
            else pure tt)
