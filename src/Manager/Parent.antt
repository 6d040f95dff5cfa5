-- ===== src/Manager/Parent.antt =====
-- manager.py: `_migrate_parent_resource`, over the manager `self` that it calls for dependencies.
use Prim.Native.String.{◌++◌ as str_append}
use sunbeam_migrate.Prelude.{Bool, true, false, some, not, List, [], ◌∷◌, if◌then◌else◌}
use sunbeam_migrate.Constants.{Status}
use sunbeam_migrate.Exec.{
  Error, Exec, invalid_input, migrate_exception, pure, raise, gets, try_except, if_found, ◌>>=◌,
  ◌>>◌,
}
use sunbeam_migrate.Db.Models.{Migration, empty_migration}
use sunbeam_migrate.Handlers.Interface.{Resource, State, Handler, Request, Perform}
use sunbeam_migrate.Manager.Env.{Env}
use sunbeam_migrate.Manager.Lookup.{
  Associated, latest, only_migrated, settled, get_associated_resources,
}
use sunbeam_migrate.Manager.Cleanup.{store, set_failure, set_destination}

-- The request for a dependency: no cleanup, the other flags passed on.
abbrev pub dependency_request : Request → Resource → Request
dependency_request q r = record q {
  resource_type = r.resource_type;
  resource_id = r.source_id;
  cleanup_source = false;
  dry_run = false;
}

-- What the handler is told: no list entry is pending.
abbrev pub is_empty {ℓ} : {A : Type ℓ} → List A → Bool
is_empty [] = true
is_empty (x ∷ xs) = false

module _ {W : Type 0} (env : Env W) where
  -- The object `models.Migration(…)` of a new migration.
  unfoldable pub new_migration : Handler W → Request → Migration
  new_migration h q = record empty_migration {
    service = some h.service_type;
    source_cloud = env.conf.source_cloud_name;
    destination_cloud = env.conf.destination_cloud_name;
    source_id = some q.resource_id;
    resource_type = some q.resource_type;
    status = some Status.in_progress;
  }

  module _ (self : Perform W) (q : Request) where
    -- The loop over the pending dependencies, and the migrations to clean up.
    unfoldable pub migrate_dependencies : List Resource → Exec (State W) (List Migration)
    migrate_dependencies [] = pure []
    migrate_dependencies (r ∷ rs) =
        let rest = migrate_dependencies rs in
        let migrate = (do
          m ← self (dependency_request q r)
          ms ← rest
          pure (if r.should_cleanup then m ∷ ms else ms)) in
        do
          db ← gets (λ s. s.db)
          if settled (latest env r.resource_type r.source_id db) then rest else migrate

    -- `if associated_resources["pending"]:`
    unfoldable pub resolve : Associated → Exec (State W) (Associated × List Migration)
    unfolding migrate_dependencies
    resolve a =
        if is_empty a.pending
        then pure (a, [])
        else if not q.include_dependencies
        then raise invalid_input
        else do
          cleanup ← migrate_dependencies a.pending
          again ← get_associated_resources env q.resource_type q.resource_id
          if is_empty again.pending then pure (again, cleanup) else raise migrate_exception

    -- The `try` block.
    unfoldable pub transfer : Handler W → Migration → Exec (State W) (Migration × List Migration)
    unfolding resolve
    transfer h m = do
      a ← get_associated_resources env q.resource_type q.resource_id
      resolved ← resolve a
      d ← h.perform_individual_migration self q.resource_id resolved.0.migrated
      m' ← store env (set_destination d) m
      pure (m', resolved.1)

    -- The `except` block.
    unfoldable pub transfer_failed : Migration → Error → Exec (State W) (Migration × List Migration)
    transfer_failed m e =
        store env (set_failure Status.failed (str_append "Migration failed, error: " (env.repr e)))
          m
        >> raise e

    -- The migration that is made when none has succeeded before.
    unfoldable pub migrate_new : Handler W → Exec (State W) (Migration × List Migration)
    unfolding new_migration transfer transfer_failed
    migrate_new h = do
      m ← store env (λ x. x) (new_migration h q)
      try_except (transfer h m) (transfer_failed m)

    unfoldable pub migrate_parent_resource : Handler W → Exec (State W) (Migration × List Migration)
    unfolding migrate_new
    migrate_parent_resource h = do
      db ← gets (λ s. s.db)
      if_found (only_migrated (latest env q.resource_type q.resource_id db))
          (λ existing. pure (existing, [])) (migrate_new h)
