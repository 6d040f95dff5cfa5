-- ===== src/Manager/DryRun.antt =====
-- manager.py: `_perform_individual_migration_dry_run`. The number is the depth of calls that the
-- interpreter still allows; beyond it Python raises `RecursionError`.
pub mod Unchanged
pub mod Cycle
use sunbeam_migrate.Prelude.{ℕ, zero, suc, none, some, not, List, [], ◌∷◌, truthy, if◌then◌else◌}
use sunbeam_migrate.Exec.{
  Exec, invalid_input, recursion_error, pure, raise, gets, when, if_found, ◌>>=◌, ◌>>◌,
}
use sunbeam_migrate.Db.Models.{Migration, empty_migration}
use sunbeam_migrate.Handlers.Interface.{Resource, State, Handler, Request, Perform, on_world}
use sunbeam_migrate.Manager.Env.{Env}
use sunbeam_migrate.Manager.Lookup.{latest, only_migrated, get_handler, get_associated_resources}

abbrev pub same_request : Request → Resource → Request
same_request q r = record q { resource_type = r.resource_type; resource_id = r.source_id }

module _ {W : Type 0} (env : Env W) where
  module _ (self : Perform W) (q : Request) where
    unfoldable pub dry_run_each : List Resource → Exec (State W) (Unit {0})
    dry_run_each [] = pure tt
    dry_run_each (r ∷ rs) = let rest = dry_run_each rs in self (same_request q r) >> rest

    unfoldable pub dry_run_dependencies : Exec (State W) (Unit {0})
    dry_run_dependencies = do
      a ← get_associated_resources env q.resource_type q.resource_id
      dry_run_each a.pending

    unfoldable pub dry_run_members : Handler W → Exec (State W) (Unit {0})
    dry_run_members h = do rs ← on_world (h.get_member_resources q.resource_id); dry_run_each rs

    -- The steps for a resource that has not been migrated.
    unfoldable pub dry_run_new : Handler W → Exec (State W) Migration
    unfolding dry_run_each dry_run_dependencies dry_run_members
    dry_run_new h = do
      when q.include_dependencies dry_run_dependencies
      when q.include_members (dry_run_members h)
      pure empty_migration

    unfoldable pub dry_run_once : Exec (State W) Migration
    unfolding dry_run_new
    dry_run_once = do
      h ← get_handler env (some q.resource_type)
      if not (truthy q.resource_id) then raise invalid_input else do
        db ← gets (λ s. s.db)
        if_found (only_migrated (latest env q.resource_type q.resource_id db))
            (λ existing. pure existing) (dry_run_new h)

  unfoldable pub dry_run_migration : ℕ → Perform W
  unfolding dry_run_once
  dry_run_migration zero q = raise recursion_error
  dry_run_migration (suc n) q = dry_run_once (dry_run_migration n) q
