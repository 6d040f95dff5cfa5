-- ===== src/Manager/Depth/Run.antt =====
-- The depth of a migration.
use sunbeam_migrate.Prelude.{
  ℕ, zero, suc, String, ◌≡◌, false, not, some, List, [], ◌∷◌, All, ◌<◌, arith, truthy,
  if◌then◌else◌,
}
use sunbeam_migrate.Constants.{Status}
use sunbeam_migrate.Exec.{ok, invalid_input, pure, raise, lift, gets, when}
use sunbeam_migrate.Exec.Returns.{Returns-lift}
use sunbeam_migrate.Exec.Same.{
  Same, Same-refl, Same-if, Same-if_found, Same-after, Same-bind, Same-try_except,
}
use sunbeam_migrate.Db.Models.{Migration}
use sunbeam_migrate.Handlers.Interface.{Resource, Handler, Request, Perform}
use sunbeam_migrate.Handlers.Factory.{get_migration_handler}
use sunbeam_migrate.Manager.Env.{Env}
use sunbeam_migrate.Manager.Lookup.{
  Associated, latest, only_migrated, settled, get_handler, get_associated_resources,
}
use sunbeam_migrate.Manager.Cleanup.{store, set_status}
use sunbeam_migrate.Manager.Parent.{
  dependency_request, is_empty, migrate_dependencies, resolve, transfer, transfer_failed,
  new_migration, migrate_new, migrate_parent_resource,
}
use sunbeam_migrate.Manager.Perform.{members_step, perform_once, perform_individual_migration}
use sunbeam_migrate.Manager.Depth.{Agree, Below, IsRank, get_associated_resources-Below}
use sunbeam_migrate.Manager.Depth.DryRun.{dry_run_migration-Same}

module _ {W : Type 0} (env : Env W) (rank : String → String → ℕ) (law : IsRank env.load rank) where
  module _ (self other : Perform W) (q : Request)
      (agree : Agree rank (rank q.resource_type q.resource_id) self other)
      (alone : q.include_members ≡ false) where
    dependencies-Same :
        (rs : List Resource)
        → All (Below rank (rank q.resource_type q.resource_id)) rs
        → Same (migrate_dependencies env self q rs) (migrate_dependencies env other q rs)
    unfolding migrate_dependencies
    dependencies-Same [] below = Same-refl (pure [])
    dependencies-Same (r ∷ rs) below =
        let next = dependency_request q r in
        let rest = dependencies-Same rs below.1 in
        Same-after (λ db. Unit) (gets (λ s. s.db)) _ _ (record { holds = λ s e. tt })
          λ db _.
            Same-if (settled (latest env r.resource_type r.source_id db)) _ _ _ _ (λ _. rest)
              λ _. Same-bind (self next) (other next) _ _ (agree next below.0 alone) λ m.
                Same-bind (migrate_dependencies env self q rs) (migrate_dependencies env other q rs)
                  _ _ rest λ ms. Same-refl (pure (if r.should_cleanup then m ∷ ms else ms))

    resolve-Same :
        (a : Associated)
        → All (Below rank (rank q.resource_type q.resource_id)) a.pending
        → Same (resolve env self q a) (resolve env other q a)
    unfolding resolve
    resolve-Same a below =
        Same-if (is_empty a.pending) _ _ _ _ (λ _. Same-refl (pure (a, [])))
          λ _.
            Same-if (not q.include_dependencies) _ _ _ _ (λ _. Same-refl (raise invalid_input))
              λ _.
                Same-bind (migrate_dependencies env self q a.pending)
                  (migrate_dependencies env other q a.pending) _ _
                  (dependencies-Same a.pending below) λ ms. Same-refl _

    transfer-Same :
        (h : Handler W)
        → get_migration_handler env.load (some q.resource_type) ≡ ok h
        → (m : Migration) → Same (transfer env self q h m) (transfer env other q h m)
    unfolding transfer
    transfer-Same h found m =
        Same-after _ (get_associated_resources env q.resource_type q.resource_id) _ _
          (get_associated_resources-Below env rank law q.resource_type q.resource_id)
          λ a below.
            Same-bind (resolve env self q a) (resolve env other q a) _ _ (resolve-Same a below)
              λ resolved.
                let deps = resolved.0.migrated in
                Same-bind (h.perform_individual_migration self q.resource_id deps)
                  (h.perform_individual_migration other q.resource_id deps) _ _
                  (law.requested q.resource_type q.resource_id found self other agree deps)
                  λ d. Same-refl _

    parent-Same :
        (h : Handler W)
        → get_migration_handler env.load (some q.resource_type) ≡ ok h
        → Same (migrate_parent_resource env self q h) (migrate_parent_resource env other q h)
    unfolding migrate_parent_resource migrate_new transfer_failed
    parent-Same h found =
        Same-after (λ db. Unit) (gets (λ s. s.db)) _ _ (record { holds = λ s e. tt })
          λ db _.
            Same-if_found (only_migrated (latest env q.resource_type q.resource_id db)) _ _ _ _
              (λ existing. Same-refl (pure (existing, [])))
              (Same-after (λ m. Unit) (store env (λ x. x) (new_migration env h q)) _ _
                (record { holds = λ s e. tt })
                λ m _.
                  Same-try_except (transfer env self q h m) (transfer env other q h m)
                    (transfer_failed env self q m) (transfer-Same h found m))

    once-Same : Same (perform_once env self q) (perform_once env other q)
    unfolding perform_once get_handler
    once-Same =
        Same-after (λ h. get_migration_handler env.load (some q.resource_type) ≡ ok h)
          (lift (get_migration_handler env.load (some q.resource_type))) _ _
          (Returns-lift _ _ (λ h e. e))
          λ h found.
            Same-if (not (truthy q.resource_id)) _ _ _ _ (λ _. Same-refl (raise invalid_input))
              λ _.
                Same-bind (migrate_parent_resource env self q h)
                  (migrate_parent_resource env other q h) _ _ (parent-Same h found)
                  λ parent.
                    Same-after (λ m. Unit) (store env (set_status Status.pending_members) parent.0)
                      _ _ (record { holds = λ s e. tt })
                      λ m _.
                        Same-bind (when q.include_members (members_step env self q h m))
                          (when q.include_members (members_step env other q h m)) _ _
                          (Same-if q.include_members _ _ (pure tt) (pure tt)
                            (λ asked. absurd (cc (asked, alone))) (λ _. Same-refl (pure tt)))
                          λ _. Same-refl _

  -- Where every dependency that is reported, and every resource that a handler asks the manager
  -- for, has a lower rank than the resource being migrated, a migration without members does the
  -- same, from every state, at any two depths of calls that exceed the rank by two or more.
  pub perform-Same :
      (m n : ℕ) (q : Request)
      → q.include_members ≡ false
      → suc (rank q.resource_type q.resource_id) < m
      → suc (rank q.resource_type q.resource_id) < n
      → Same (perform_individual_migration env m q) (perform_individual_migration env n q)
  unfolding perform_individual_migration
  perform-Same zero n q alone low high = absurd (omega arith)
  perform-Same (suc m) zero q alone low high = absurd (omega arith)
  perform-Same (suc m) (suc n) q alone low high =
      Same-if q.dry_run _ _ _ _
        (λ _. dry_run_migration-Same env rank law m n q alone (omega arith) (omega arith))
        (λ _.
          once-Same (perform_individual_migration env m) (perform_individual_migration env n) q
            (λ next below lone. perform-Same m n next lone (omega arith) (omega arith)) alone)
