-- ===== src/Manager/Contract/Perform.antt =====
-- The contract of `perform_individual_migration`, at every depth.
use mathlib.Core.Path.{subst, sym}
use sunbeam_migrate.Prelude.{
  ℕ, zero, suc, ◌≡◌, refl, ◌∙◌, ap, not, Bool-cases, inl, inr, List, some, none, All, All-map,
  truthy, arith,
}
use sunbeam_migrate.Constants.{Status, is_migrated}
use sunbeam_migrate.Exec.{ok, invalid_input, recursion_error, when}
use sunbeam_migrate.Db.Models.{Migration, Db, find_row, updated}
use sunbeam_migrate.Db.History.Soundness.{IsSound, find-id}
use sunbeam_migrate.Handlers.Interface.{State, Handler, Request, Perform, IsHandler}
use sunbeam_migrate.Handlers.Factory.{get_migration_handler}
use sunbeam_migrate.Handlers.Factory.Loaded.{get_migration_handler-Loaded}
use sunbeam_migrate.Manager.Env.{Env, IsEnv}
use sunbeam_migrate.Manager.Lookup.{get_handler}
use sunbeam_migrate.Manager.Cleanup.{store, set_status, cleanup_migration_source}
use sunbeam_migrate.Manager.Parent.{migrate_parent_resource}
use sunbeam_migrate.Manager.DryRun.{dry_run_migration}
use sunbeam_migrate.Manager.DryRun.Unchanged.{dry_run_migration-Preserves}
use sunbeam_migrate.Manager.Perform.{
  members_step, cleanup_step, perform_once, perform_individual_migration,
}
use sunbeam_migrate.Manager.Contract.{
  Grows, Grows-refl, Ends, raises, Anything, Ends-from, Ends-if, Ends-bind, Ends-weaken, Ends-step,
  Ends-when, Ends-of, bind_lift, bind_track,
}
use sunbeam_migrate.Manager.Contract.Store.{updated-SameColumns, store_stored}
use sunbeam_migrate.Manager.Contract.Known.{
  Known, Known-Grows, Known-update, set_status-IsMark, Marked, store-Known,
}
use sunbeam_migrate.Manager.Contract.Cleanup.{
  IsKnown, IsKnown-Grows, cleanup_migration_source-Ends, cleanup_sources-Ends,
}
use sunbeam_migrate.Manager.Contract.Parent.{Completed, Answers, IsPerform}
use sunbeam_migrate.Manager.Contract.Transfer.{Carried}
use sunbeam_migrate.Manager.Contract.New.{migrate_parent_resource-Ends}
use sunbeam_migrate.Manager.Contract.Members.{members_step-Ends}

module _ {W : Type 0} (env : Env W) where
  -- The object is known after the write, and what was known still is.
  abbrev Settled : Db → Request → Migration → Db → Type 0
  Settled before q a e =
      Known q.resource_type q.resource_id a e
      × ((o : Migration) → IsKnown env before o → IsKnown env e o)

  -- `migration.status = STATUS_PENDING_MEMBERS` on the parent's object.
  store_pending-Ends :
      (d : Db) (q : Request) (m : Migration) (s : State W)
      → Grows d s.db
      → Carried d q.resource_type q.resource_id m s.db
      → Ends d (Settled s.db q) Anything (store env (set_status Status.pending_members) m s)
  store_pending-Ends d q m s g c =
      let set = set_status Status.pending_members in
      let mark = set_status-IsMark Status.pending_members refl in
      let t = q.resource_type in
      let i = q.resource_id in
      elim (Bool-cases (is_migrated c.row.status)) [
        | inl mig ↦
            Ends-weaken d _ _ _ _ (λ a e _ k. (k.2.known, IsKnown-Grows env s.db e k.1))
              (λ x e _ _. tt) _
              (Ends-step d s.db s.db (Marked env t i set) g (Grows-refl s.db g.0) _ (
                store-Known env Anything t i s.db set m s mark (Grows-refl s.db g.0) (record {
                  key = c.key;
                  row = c.row;
                  id = c.id;
                  found = c.found;
                  migrated = mig;
                  of = c.of;
                })))
        | inr open_row ↦
            let cols = updated-SameColumns env.backend s.db set c.row in
            let fresh : find_row c.key d.rows ≡ none = elim c.own [
              | inl new ↦ new
              | inr mig ↦ absurd (cc (mig, open_row))
            ] in
            Ends-weaken d _ _ _ _
              (λ a e _ w. (
                record {
                  key = c.key;
                  row = a;
                  id = rw w.0 (cols.id ∙ find-id c.key s.db.rows c.row c.found);
                  found = w.1;
                  migrated = rw w.0 (ap is_migrated cols.status);
                  of = rw w.0 (record {
                    resource_type = cols.resource_type ∙ c.of.resource_type;
                    source_id = cols.source_id ∙ c.of.source_id;
                    archived = cols.archived ∙ c.of.archived;
                  });
                },
                λ o k. (
                  k.0,
                  k.1,
                  Known-update k.0 k.1 o s.db e c.key (updated env.backend s.db set) c.row
                      (λ y. (updated-SameColumns env.backend s.db set y).id) c.found open_row
                      (ap (λ (y : Db). y.rows) w.2) k.2,
                ),
              ))
              (λ x e _ _. tt) _
              (store_stored env Anything d set m c.key c.row s (λ r. refl) c.id c.found g
                (λ _. record {
                  resource_type = rw cols.resource_type c.complete.resource_type;
                  source_id = rw cols.source_id c.complete.source_id;
                  destination_id = rw cols.destination_id c.complete.destination_id;
                })
                (inl fresh))
      ]

  cleanup_step-Ends :
      (self : Perform W) (q : Request) (m : Migration) (ms : List Migration) (s : State W)
      → IsSound s.db.rows
      → Known q.resource_type q.resource_id m s.db
      → All (IsKnown env s.db) ms
      → Ends s.db Anything Anything (cleanup_step env self q m ms s)
  unfolding cleanup_step
  cleanup_step-Ends self q m ms s sound k ks =
      let g = Grows-refl s.db sound in
      let t = q.resource_type in
      let i = q.resource_id in
      Ends-bind s.db (Marked env t i (set_status Status.pending_cleanup)) _ Anything
        (store env (set_status Status.pending_cleanup) m) _ s
        (store-Known env Anything t i s.db (set_status Status.pending_cleanup) m s
          (set_status-IsMark Status.pending_cleanup refl) g k)
        λ m1 s1 g1 k1.
          bind_track s.db s1.db (Known t i) _ g1 (cleanup_migration_source env m1) _ s1
            (cleanup_migration_source-Ends env t i m1 s1 g1.0 k1.known)
            λ _ s2 g2 _ _. Ends-from s.db s2.db _ _ g2 _ (
              cleanup_sources-Ends env ms s2 g2.0 (All-map (IsKnown-Grows env s.db s2.db g2) ms ks))

  module _ (laws : IsEnv env) where
    loaded-IsHandler :
        (t : _) {h : Handler W} → get_migration_handler env.load t ≡ ok h → IsHandler h
    loaded-IsHandler t e =
        let l = get_migration_handler-Loaded env.load t e in
        subst (λ x. IsHandler x) (sym l.is_load) (laws.handlers l.path)

    perform_once-Ends :
        (self : Perform W) (keeps : IsPerform self) (q : Request) (s : State W)
        → IsSound s.db.rows
        → Ends s.db (Completed q.resource_type q.resource_id) Anything (perform_once env self q s)
    unfolding perform_once get_handler
    perform_once-Ends self keeps q s sound =
        let t = q.resource_type in
        let i = q.resource_id in
        let d = s.db in
        let g = Grows-refl d sound in
        bind_lift d _ (get_migration_handler env.load (some t)) _ s g λ h found.
          Ends-if d _ Anything (not (truthy i)) _ _ s (λ _. raises invalid_input s g tt)
            λ named.
              Ends-bind d (λ p e. Carried d t i p.0 e × All (IsKnown env e) p.1) _ Anything
                (migrate_parent_resource env self q h) _ s
                (Ends-weaken d _ _ _ _ (λ p e _ k. k) (λ c e _ _. tt) _
                  (migrate_parent_resource-Ends env h (loaded-IsHandler (some t) found) laws self
                    keeps q s (get_migration_handler-Loaded env.load (some t) found).is_set
                    (ground arith) sound))
                λ p s1 g1 k1.
                  Ends-bind d (Settled s1.db q) _ Anything
                    (store env (set_status Status.pending_members) p.0) _ s1
                    (store_pending-Ends d q p.0 s1 g1 k1.0)
                    λ m s2 g2 k2.
                      bind_track d s2.db Anything _ g2
                        (when q.include_members (members_step env self q h m)) _ s2
                        (Ends-when s2.db q.include_members (members_step env self q h m) s2
                          (Grows-refl s2.db g2.0) (members_step-Ends env self keeps q h m s2 g2.0))
                        λ _ s3 g3 h3 _.
                          let k3 = Known-Grows t i m s2.db s3.db h3 k2.0 in
                          let ks =
                            All-map (λ o k. IsKnown-Grows env s2.db s3.db h3 o (k2.1 o k)) p.1
                              k1.1 in
                          bind_track d s3.db Anything _ g3
                            (when q.cleanup_source (cleanup_step env self q m p.1)) _ s3
                            (Ends-when s3.db q.cleanup_source (cleanup_step env self q m p.1) s3
                              (Grows-refl s3.db g3.0)
                              (cleanup_step-Ends self q m p.1 s3 g3.0 k3 ks))
                            λ _ s4 g4 h4 _.
                              Ends-weaken d _ _ _ _
                                (λ a e _ w. record {
                                  known = w.known;
                                  stored = w.stored;
                                  status = w.columns.status;
                                })
                                (λ c e _ _. tt) _
                                (store-Known env Anything t i d (set_status Status.completed) m s4
                                  (set_status-IsMark Status.completed refl) g4
                                  (Known-Grows t i m s3.db s4.db h4 k3))

    -- A dry run leaves the database as it is.
    pub dry_run-db : (n : ℕ) (q : Request) (s : State W) → (dry_run_migration env n q s).1.db ≡ s.db
    dry_run-db n q s =
        (dry_run_migration-Preserves env (λ x. x.db ≡ s.db)
            (record {
              associated = λ path j. record { after = λ x same. same };
              members = λ path j. record { after = λ x same. same };
            })
            n q).after
          s refl

    -- At every depth the manager keeps the contract.
    pub perform_individual_migration-IsPerform :
        (n : ℕ) → IsPerform (perform_individual_migration env n)
    unfolding perform_individual_migration
    perform_individual_migration-IsPerform zero q s sound =
        raises recursion_error s (Grows-refl s.db sound) tt
    perform_individual_migration-IsPerform (suc n) q s sound =
        let same = dry_run-db n q s in
        Ends-if s.db (Answers q) Anything q.dry_run _ _ s
          (λ dry.
            Ends-of s.db (Answers q) _
              (subst (λ (x : Db). Grows s.db x) (sym same) (Grows-refl s.db sound))
              (λ m _ real. absurd (cc (dry, real))))
          (λ _.
            Ends-weaken s.db _ _ _ _ (λ m e _ k _. k) (λ c e _ _. tt) _
              (perform_once-Ends (perform_individual_migration env n)
                (perform_individual_migration-IsPerform n) q s sound))
