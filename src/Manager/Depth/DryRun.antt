-- ===== src/Manager/Depth/DryRun.antt =====
-- The depth of a dry run.
use sunbeam_migrate.Prelude.{
  ℕ, zero, suc, String, ◌≡◌, false, not, some, List, [], ◌∷◌, All, ◌<◌, arith, truthy,
}
use sunbeam_migrate.Exec.{invalid_input, pure, raise, lift, gets, when}
use sunbeam_migrate.Exec.Returns.{Returns-lift}
use sunbeam_migrate.Exec.Same.{Same, Same-refl, Same-if, Same-if_found, Same-after, Same-bind}
use sunbeam_migrate.Db.Models.{empty_migration}
use sunbeam_migrate.Handlers.Interface.{Resource, Handler, Request, Perform}
use sunbeam_migrate.Handlers.Factory.{get_migration_handler}
use sunbeam_migrate.Manager.Env.{Env}
use sunbeam_migrate.Manager.Lookup.{latest, only_migrated, get_handler, get_associated_resources}
use sunbeam_migrate.Manager.DryRun.{
  same_request, dry_run_each, dry_run_dependencies, dry_run_members, dry_run_new, dry_run_once,
  dry_run_migration,
}
use sunbeam_migrate.Manager.Depth.{Agree, Below, IsRank, get_associated_resources-Below}

module _ {W : Type 0} (env : Env W) (rank : String → String → ℕ) (law : IsRank env.load rank) where
  module _ (self other : Perform W) (q : Request)
      (agree : Agree rank (rank q.resource_type q.resource_id) self other)
      (alone : q.include_members ≡ false) where
    each-Same :
        (rs : List Resource)
        → All (Below rank (rank q.resource_type q.resource_id)) rs
        → Same (dry_run_each env self q rs) (dry_run_each env other q rs)
    unfolding dry_run_each
    each-Same [] below = Same-refl (pure tt)
    each-Same (r ∷ rs) below =
        let next = same_request q r in
        let rest = each-Same rs below.1 in
        Same-bind (self next) (other next) _ _ (agree next below.0 alone) (λ m. rest)

    dependencies-Same : Same (dry_run_dependencies env self q) (dry_run_dependencies env other q)
    unfolding dry_run_dependencies
    dependencies-Same =
        Same-after _ (get_associated_resources env q.resource_type q.resource_id) _ _
          (get_associated_resources-Below env rank law q.resource_type q.resource_id)
          (λ a below. each-Same a.pending below)

    new-Same : (h : Handler W) → Same (dry_run_new env self q h) (dry_run_new env other q h)
    unfolding dry_run_new
    new-Same h =
        Same-bind (when q.include_dependencies (dry_run_dependencies env self q))
          (when q.include_dependencies (dry_run_dependencies env other q)) _ _
          (Same-if q.include_dependencies _ _ (pure tt) (pure tt) (λ _. dependencies-Same)
            (λ _. Same-refl (pure tt)))
          λ _.
            Same-bind (when q.include_members (dry_run_members env self q h))
              (when q.include_members (dry_run_members env other q h)) _ _
              (Same-if q.include_members _ _ (pure tt) (pure tt)
                (λ asked. absurd (cc (asked, alone))) (λ _. Same-refl (pure tt)))
              (λ _. Same-refl (pure empty_migration))

    once-Same : Same (dry_run_once env self q) (dry_run_once env other q)
    unfolding dry_run_once get_handler
    once-Same =
        Same-after (λ h. Unit) (lift (get_migration_handler env.load (some q.resource_type))) _ _
          (Returns-lift _ _ (λ h e. tt))
          λ h _.
            Same-if (not (truthy q.resource_id)) _ _ _ _ (λ _. Same-refl (raise invalid_input))
              λ _.
                Same-after (λ db. Unit) (gets (λ s. s.db)) _ _ (record { holds = λ s e. tt })
                  λ db _.
                    Same-if_found (only_migrated (latest env q.resource_type q.resource_id db)) _ _
                      _ _ (λ existing. Same-refl (pure existing)) (new-Same h)

  -- Where every reported dependency has a lower rank than what reports it, a dry run without
  -- members does the same, from every state, at any two depths of calls above the rank of the
  -- resource.
  pub dry_run_migration-Same :
      (m n : ℕ) (q : Request)
      → q.include_members ≡ false
      → rank q.resource_type q.resource_id < m
      → rank q.resource_type q.resource_id < n
      → Same (dry_run_migration env m q) (dry_run_migration env n q)
  unfolding dry_run_migration
  dry_run_migration-Same zero n q alone low high = absurd (omega arith)
  dry_run_migration-Same (suc m) zero q alone low high = absurd (omega arith)
  dry_run_migration-Same (suc m) (suc n) q alone low high =
      once-Same (dry_run_migration env m) (dry_run_migration env n) q
        (λ next below lone. dry_run_migration-Same m n next lone (omega arith) (omega arith)) alone
