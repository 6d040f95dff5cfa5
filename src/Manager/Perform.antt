-- ===== src/Manager/Perform.antt =====
-- manager.py: `perform_individual_migration`. The number is the depth of calls that the interpreter
-- still allows; beyond it Python raises `RecursionError`.
use sunbeam_migrate.Prelude.{ℕ, zero, suc, some, not, List, truthy, if◌then◌else◌}
use sunbeam_migrate.Constants.{Status}
use sunbeam_migrate.Exec.{
  Exec, invalid_input, recursion_error, pure, raise, try_except, when, ◌>>=◌, ◌>>◌,
}
use sunbeam_migrate.Db.Models.{Migration}
use sunbeam_migrate.Handlers.Interface.{State, Handler, Request, Perform, on_world}
use sunbeam_migrate.Manager.Env.{Env}
use sunbeam_migrate.Manager.Lookup.{get_handler}
use sunbeam_migrate.Manager.Cleanup.{store, set_status, cleanup_migration_source, cleanup_sources}
use sunbeam_migrate.Manager.Parent.{migrate_parent_resource}
use sunbeam_migrate.Manager.Members.{migrate_member_resources}
use sunbeam_migrate.Manager.DryRun.{dry_run_migration}

module _ {W : Type 0} (env : Env W) where
  module _ (self : Perform W) (q : Request) where
    -- `if include_members:`, the whole block
    unfoldable pub members_step : Handler W → Migration → Exec (State W) (Unit {0})
    unfolding migrate_member_resources
    members_step h m = do
      ds ← migrate_member_resources env self q h
      try_except (on_world (h.connect_member_resources_to_parent m.destination_id ds))
          (λ e. pure tt)

    -- `if cleanup_source:`, the whole block
    unfoldable pub cleanup_step : Migration → List Migration → Exec (State W) (Unit {0})
    unfolding cleanup_sources
    cleanup_step m associated = do
      m' ← store env (set_status Status.pending_cleanup) m
      cleanup_migration_source env m'
      cleanup_sources env associated

    unfoldable pub perform_once : Exec (State W) Migration
    unfolding members_step cleanup_step
    perform_once = do
      h ← get_handler env (some q.resource_type)
      if not (truthy q.resource_id) then raise invalid_input else do
        parent ← migrate_parent_resource env self q h
        m ← store env (set_status Status.pending_members) parent.0
        when q.include_members (members_step h m)
        when q.cleanup_source (cleanup_step m parent.1)
        store env (set_status Status.completed) m

  unfoldable pub perform_individual_migration : ℕ → Perform W
  unfolding perform_once
  perform_individual_migration zero q = raise recursion_error
  perform_individual_migration (suc n) q =
      let real = perform_once (perform_individual_migration n) q in
      if q.dry_run then dry_run_migration env n q else real
