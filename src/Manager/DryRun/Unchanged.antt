-- ===== src/Manager/DryRun/Unchanged.antt =====
-- A dry run keeps whatever the handlers' queries keep: it writes nothing itself.
use sunbeam_migrate.Prelude.{
  ℕ, zero, suc, String, ◌≡◌, Bool, true, false, not, Option, some, none, List, [], ◌∷◌, truthy,
}
use sunbeam_migrate.Exec.{Exec, ok, invalid_input, recursion_error, gets, when, if_found}
use sunbeam_migrate.Exec.Preserves.{
  Preserves, Preserves-pure, Preserves-raise, Preserves-lift, Preserves-gets, Preserves-if,
  Preserves-bind, Preserves-bind_lift,
}
use sunbeam_migrate.Db.Models.{empty_migration}
use sunbeam_migrate.Handlers.Interface.{Resource, State, Handler, Request, Perform, on_world}
use sunbeam_migrate.Handlers.Factory.{get_migration_handler}
use sunbeam_migrate.Handlers.Factory.Loaded.{get_migration_handler-Loaded}
use sunbeam_migrate.Manager.Env.{Env}
use sunbeam_migrate.Manager.Lookup.{latest, only_migrated, get_handler, get_associated_resources}
use sunbeam_migrate.Manager.DryRun.{
  same_request, dry_run_each, dry_run_dependencies, dry_run_members, dry_run_new, dry_run_once,
  dry_run_migration,
}

module _ {W : Type 0} (env : Env W) (P : State W → Type 0) where
  -- The queries of the handler classes keep `P`.
  pub record QueriesKeep : Type 0 where
    pub associated :
        (path i : String) → Preserves P (on_world ((env.load path).get_associated_resources i))
    pub members :
        (path i : String) → Preserves P (on_world ((env.load path).get_member_resources i))

  Preserves-when :
      (b : Bool) (m : Exec (State W) (Unit {0})) → Preserves P m → Preserves P (when b m)
  Preserves-when true m k = k
  Preserves-when false m k = Preserves-pure tt

  Preserves-if_found :
      {A B : Type 0} (o : Option A) (f : A → Exec (State W) B) (m : Exec (State W) B)
      → ((a : A) → Preserves P (f a))
      → Preserves P m
      → Preserves P (if_found o f m)
  Preserves-if_found (some a) f m kf km = kf a
  Preserves-if_found none f m kf km = km

  module _ (queries : QueriesKeep) where
    associated-Preserves :
        (t : Option String) (h : Handler W) (i : String)
        → get_migration_handler env.load t ≡ ok h
        → Preserves P (on_world (h.get_associated_resources i))
    associated-Preserves t h i found =
        let l = get_migration_handler-Loaded env.load t found in
        rw l.is_load (queries.associated l.path i)

    members-Preserves :
        (t : Option String) (h : Handler W) (i : String)
        → get_migration_handler env.load t ≡ ok h
        → Preserves P (on_world (h.get_member_resources i))
    members-Preserves t h i found =
        let l = get_migration_handler-Loaded env.load t found in
        rw l.is_load (queries.members l.path i)

    get_associated-Preserves : (t i : String) → Preserves P (get_associated_resources env t i)
    unfolding get_associated_resources
    get_associated-Preserves t i =
        Preserves-bind_lift (get_migration_handler env.load (some t)) _ λ h found.
          Preserves-bind (on_world (h.get_associated_resources i)) _
            (associated-Preserves (some t) h i found)
            λ rs. Preserves-bind (gets (λ s. s.db)) _ (Preserves-gets _) (λ db. Preserves-lift _)

    module _ (self : Perform W) (keeps : (q : Request) → Preserves P (self q)) (q : Request) where
      dry_run_each-Preserves : (rs : List Resource) → Preserves P (dry_run_each env self q rs)
      unfolding dry_run_each
      dry_run_each-Preserves [] = Preserves-pure tt
      dry_run_each-Preserves (r ∷ rs) =
          Preserves-bind (self (same_request q r)) _ (keeps (same_request q r))
            (λ _. dry_run_each-Preserves rs)

      dry_run_new-Preserves :
          (h : Handler W)
          → get_migration_handler env.load (some q.resource_type) ≡ ok h
          → Preserves P (dry_run_new env self q h)
      unfolding dry_run_new
      dry_run_new-Preserves h found =
          Preserves-bind (when q.include_dependencies (dry_run_dependencies env self q)) _
            (Preserves-when q.include_dependencies _ (
              Preserves-bind (get_associated_resources env q.resource_type q.resource_id) _
                (get_associated-Preserves q.resource_type q.resource_id)
                (λ a. dry_run_each-Preserves a.pending)))
            λ _.
              Preserves-bind (when q.include_members (dry_run_members env self q h)) _
                (Preserves-when q.include_members _ (
                  Preserves-bind (on_world (h.get_member_resources q.resource_id)) _
                    (members-Preserves (some q.resource_type) h q.resource_id found)
                    (λ rs. dry_run_each-Preserves rs)))
                (λ _. Preserves-pure empty_migration)

      dry_run_once-Preserves : Preserves P (dry_run_once env self q)
      unfolding dry_run_once get_handler
      dry_run_once-Preserves =
          Preserves-bind_lift (get_migration_handler env.load (some q.resource_type)) _ λ h found.
            Preserves-if (not (truthy q.resource_id)) _ _ (λ _. Preserves-raise invalid_input)
              λ _. Preserves-bind (gets (λ s. s.db)) _ (Preserves-gets _) λ db.
                Preserves-if_found (only_migrated (latest env q.resource_type q.resource_id db)) _ _
                  (λ m. Preserves-pure m) (dry_run_new-Preserves h found)

    pub dry_run_migration-Preserves :
        (n : ℕ) (q : Request) → Preserves P (dry_run_migration env n q)
    unfolding dry_run_migration
    dry_run_migration-Preserves zero q = Preserves-raise recursion_error
    dry_run_migration-Preserves (suc n) q =
        dry_run_once-Preserves (dry_run_migration env n) (dry_run_migration-Preserves n) q
