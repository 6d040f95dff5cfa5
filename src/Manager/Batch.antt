-- ===== src/Manager/Batch.antt =====
-- manager.py: `perform_batch_migration`.
pub mod Table
pub mod Done
use sunbeam_migrate.Prelude.{ℕ, String, false, some, List, [], ◌∷◌, if◌then◌else◌}
use sunbeam_migrate.Constants.{Status, status_text}
use sunbeam_migrate.Exec.{Exec, pure, gets, ◌>>=◌, ◌>>◌}
use sunbeam_migrate.Db.Api.{Filters, no_filters, get_migrations}
use sunbeam_migrate.Handlers.Interface.{State, Request, on_world}
use sunbeam_migrate.Manager.Env.{Env}
use sunbeam_migrate.Manager.Lookup.{get_handler}
use sunbeam_migrate.Manager.Parent.{is_empty}
use sunbeam_migrate.Manager.Perform.{perform_individual_migration}

-- `get_migrations(source_id=resource_id, status=STATUS_COMPLETED)`: no resource type.
unfoldable pub completed_filters : String → Filters
unfolding status_text
completed_filters i = record no_filters {
  source_id = some i;
  status = some (status_text Status.completed);
}

module _ {W : Type 0} (env : Env W) (depth : ℕ) where
  -- The loop over the resource ids; `q` holds the flags.
  unfoldable pub perform_each : Request → List String → Exec (State W) (Unit {0})
  unfolding completed_filters
  perform_each q [] = pure tt
  perform_each q (i ∷ is) =
      let rest = perform_each q is in
      let migrate = perform_individual_migration env depth (record q { resource_id = i }) >> rest in
      do
        db ← gets (λ s. s.db)
        if is_empty (get_migrations env.backend false false (completed_filters i) db)
            then migrate
            else rest

  unfoldable pub perform_batch_migration :
      Request → List (String × String) → Exec (State W) (Unit {0})
  unfolding perform_each
  perform_batch_migration q filters = do
    h ← get_handler env (some q.resource_type)
    is ← on_world (h.get_source_resource_ids filters)
    perform_each q is
