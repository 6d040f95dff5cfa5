-- ===== src/Manager/DryRun/Cycle.antt =====
-- A dry run of a resource with a member that depends on it.
use sunbeam_migrate.Prelude.{
  ℕ, zero, suc, String, ◌≡◌, refl, true, none, some, List, [], ◌∷◌, truthy,
}
use sunbeam_migrate.Exec.{Result, ok, err, recursion_error}
use sunbeam_migrate.Db.Models.{Migration, Db}
use sunbeam_migrate.Handlers.Interface.{
  Resource, MigratedResource, State, Handler, Request, Perform,
}
use sunbeam_migrate.Handlers.Base.{dependency}
use sunbeam_migrate.Handlers.Factory.{get_migration_handler}
use sunbeam_migrate.Manager.Env.{Env}
use sunbeam_migrate.Manager.Lookup.{
  latest, only_migrated, get_handler, classify, get_associated_resources,
}
use sunbeam_migrate.Manager.DryRun.{
  dry_run_each, dry_run_dependencies, dry_run_members, dry_run_new, dry_run_once, dry_run_migration,
}

-- The resource's handler, which reports the same dependencies in every state; these of them have not
-- been migrated, and neither has the resource.
pub record Unmigrated {W : Type 0} (env : Env W) (d : Db) (t i : String) (pending : List Resource)
    : Type 0 where
  pub handler : Handler W
  pub loaded : get_migration_handler env.load (some t) ≡ ok handler
  pub named : truthy i ≡ true
  pub dependencies : List Resource
  pub reports : (w : W) → handler.get_associated_resources i w ≡ (ok dependencies, w)
  pub migrated : List MigratedResource
  pub sorted : classify env d dependencies ≡ ok (record { migrated = migrated; pending = pending })
  pub new : only_migrated (latest env t i d) ≡ none

-- Both flags are set.
abbrev pub both : Request → String → String → Request
both q t i = record q {
  resource_type = t;
  resource_id = i;
  include_dependencies = true;
  include_members = true;
}

abbrev pub too_deep : {W : Type 0} → State W → Result Migration × State W
too_deep s = (err recursion_error, s)

module _ {W : Type 0} (env : Env W) (s : State W) (q : Request) (t i u j : String)
    (others more : List Resource) (parent : Unmigrated env s.db t i [])
    (member : Unmigrated env s.db u j (dependency t i ∷ others))
    (contains : (w : W)
      → parent.handler.get_member_resources i w ≡ (ok (dependency u j ∷ more), w)) where
  member_step :
      (self : Perform W)
      → self (both q t i) s ≡ too_deep s
      → dry_run_once env self (both q u j) s ≡ too_deep s
  unfolding dry_run_once dry_run_new dry_run_dependencies dry_run_each get_handler
      get_associated_resources
  member_step self deep =
      rw (member.loaded, member.named, member.new, member.reports s.world, member.sorted, deep)

  parent_step :
      (self : Perform W)
      → self (both q u j) s ≡ too_deep s
      → dry_run_once env self (both q t i) s ≡ too_deep s
  unfolding dry_run_once dry_run_new dry_run_dependencies dry_run_members dry_run_each get_handler
      get_associated_resources
  parent_step self deep = rw (
    parent.loaded,
    parent.named,
    parent.new,
    parent.reports s.world,
    parent.sorted,
    contains s.world,
    deep,
  )

  both_deep :
      (n : ℕ)
      → (dry_run_migration env n (both q t i) s ≡ too_deep s)
        × (dry_run_migration env n (both q u j) s ≡ too_deep s)
  unfolding dry_run_migration
  both_deep zero = (refl, refl)
  both_deep (suc n) =
      let (first, second) = both_deep n in
      (parent_step (dry_run_migration env n) second, member_step (dry_run_migration env n) first)

  -- A dry run with dependencies and members, of a resource whose first member depends on it, exceeds
  -- the depth of calls, whatever that is: the resource asks for its member and the member for the
  -- resource. Neither has been migrated, all the dependencies of the resource have been (or it has
  -- none), the resource is the first of the member's dependencies that has not been migrated, and
  -- the handlers report the same in every state and leave the clouds as they are.
  pub dry_run_migration-cycle : (n : ℕ) → dry_run_migration env n (both q t i) s ≡ too_deep s
  dry_run_migration-cycle n = (both_deep n).0
