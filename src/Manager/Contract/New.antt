-- ===== src/Manager/Contract/New.antt =====
-- The contracts of `_migrate_parent_resource`: a new migration, or one that is found.
use mathlib.Core.Path.{subst, sym}
use Prim.Native.String.{◌++◌ as str_append}
use sunbeam_migrate.Prelude.{
  String, ◌≡◌, refl, ◌∙◌, true, inl, inr, List, [], ◌∷◌, ◌++◌, suc, All, truthy, arith,
}
use sunbeam_migrate.Constants.{Status}
use sunbeam_migrate.Exec.{Error}
use sunbeam_migrate.Db.Models.{Migration, Db, inserted}
use sunbeam_migrate.Db.History.Soundness.{IsSound}
use sunbeam_migrate.Handlers.Interface.{State, Handler, Request, Perform, IsHandler}
use sunbeam_migrate.Manager.Env.{Env, IsEnv}
use sunbeam_migrate.Manager.Lookup.{latest, only_migrated}
use sunbeam_migrate.Manager.Lookup.Latest.{latest-IsComplete, latest-Found}
use sunbeam_migrate.Manager.Cleanup.{store, set_failure}
use sunbeam_migrate.Manager.Parent.{
  new_migration, transfer, transfer_failed, migrate_new, migrate_parent_resource,
}
use sunbeam_migrate.Manager.Contract.{
  Grows, Grows-refl, Ends, returns, raises, Ends-bind, Ends-try_except, Ends-if_found,
}
use sunbeam_migrate.Manager.Contract.Store.{updated-SameColumns, store_stored, insert_new}
use sunbeam_migrate.Manager.Contract.Cleanup.{IsKnown}
use sunbeam_migrate.Manager.Contract.Parent.{IsPerform}
use sunbeam_migrate.Manager.Contract.Transfer.{
  Carried, FailedRow, InProgress, InProgress-Grows, transfer-Ends,
}

-- The text that a failed migration stores.
abbrev pub failure_text : {W : Type 0} → Env W → Error → String
failure_text env c = str_append "Migration failed, error: " (env.repr c)

module _ {W : Type 0} (env : Env W) (h : Handler W) (lawful : IsHandler h) where
  -- The `except` block leaves the row failed, with the error's text, and raises the error again.
  transfer_failed-Ends :
      (self : Perform W) (q : Request) (t i : String) (d : Db) (m : Migration) (c : Error)
      → (s : State W) → Grows d s.db
      → InProgress env h lawful d t i m s.db
      → (Q : Migration × List Migration → Db → Type 0)
      → Ends d Q (λ c e. FailedRow d t i (failure_text env c) e) (transfer_failed env self q m c s)
  unfolding transfer_failed
  transfer_failed-Ends self q t i d m c s g p Q =
      let set = set_failure Status.failed (failure_text env c) in
      let cols = updated-SameColumns env.backend s.db set p.row in
      Ends-bind d _ Q _ (store env set m) _ s
        (store_stored env _ d set m p.key p.row s (λ r. refl) p.id p.found g
          (λ mig. absurd (cc (cols.status, mig))) (inl p.new))
        λ a s' g' w. raises c s' g' (record {
          key = p.key;
          row = a;
          found = w.1;
          new = p.new;
          of = rw w.0 (record {
            resource_type = cols.resource_type ∙ p.of.resource_type;
            source_id = cols.source_id ∙ p.of.source_id;
            archived = cols.archived ∙ p.of.archived;
          });
          status = rw w.0 cols.status;
          message = rw w.0 cols.error_message;
        })

  module _ (laws : IsEnv env) (self : Perform W) (keeps : IsPerform self) (q : Request) where
    pub migrate_new-Ends :
        (s : State W)
        → truthy q.resource_type ≡ true
        → truthy q.resource_id ≡ true
        → IsSound s.db.rows
        → Ends s.db
            (λ p e. Carried s.db q.resource_type q.resource_id p.0 e × All (IsKnown env e) p.1)
            (λ c e. FailedRow s.db q.resource_type q.resource_id (failure_text env c) e)
            (migrate_new env self q h s)
    unfolding migrate_new new_migration
    migrate_new-Ends s ht hi sound =
        let m0 = new_migration env h q in
        let r = inserted env.backend s.db m0 in
        let i = env.backend.next_id s.db.rows in
        let s1 : State W = record s {
          db = record { rows = s.db.rows ++ r ∷ []; readings = suc s.db.readings };
        } in
        let new = insert_new env m0 s laws.backend refl sound (λ mig. absurd (ground arith)) in
        let p : InProgress env h lawful s.db q.resource_type q.resource_id r s1.db = record {
          key = i;
          row = r;
          id = refl;
          found = new.3;
          new = new.2;
          of = record {
            resource_type = ground arith;
            source_id = ground arith;
            archived = ground arith;
          };
          status = ground arith;
        } in
        Ends-bind s.db (λ a e. InProgress env h lawful s.db q.resource_type q.resource_id a e) _ _
          (store env (λ x. x) m0) _ s (subst (Ends s.db _ _) (sym new.0) (returns r s1 new.1 p))
          λ a s2 g2 p2.
            Ends-try_except s.db _ _ _ (transfer env self q h a) (transfer_failed env self q a) s2
              (transfer-Ends env h lawful self keeps q s.db a s2 ht hi g2 p2)
              λ c s' g' k.
                transfer_failed-Ends self q q.resource_type q.resource_id s.db a c s' g'
                  (InProgress-Grows env h lawful s.db q.resource_type q.resource_id a s2.db s'.db k
                    p2)
                  _

    -- The migration that is found, or the new one.
    pub migrate_parent_resource-Ends :
        (s : State W)
        → truthy q.resource_type ≡ true
        → truthy q.resource_id ≡ true
        → IsSound s.db.rows
        → Ends s.db
            (λ p e. Carried s.db q.resource_type q.resource_id p.0 e × All (IsKnown env e) p.1)
            (λ c e. FailedRow s.db q.resource_type q.resource_id (failure_text env c) e)
            (migrate_parent_resource env self q h s)
    unfolding migrate_parent_resource
    migrate_parent_resource-Ends s ht hi sound =
        Ends-if_found s.db _ _ (only_migrated (latest env q.resource_type q.resource_id s.db)) _
          (migrate_new env self q h) s
          (λ m e.
            let (at, mig, complete) =
              latest-IsComplete env laws.backend q.resource_type q.resource_id s.db sound e in
            let ((k, id, stored), of) =
              latest-Found env laws.backend q.resource_type q.resource_id s.db sound at in
            returns (m, []) s (Grows-refl s.db sound)
              (
                record {
                  key = k;
                  row = m;
                  id = id;
                  found = stored;
                  of = of;
                  complete = complete;
                  own = inr mig;
                },
                tt,
              ))
          (λ _. migrate_new-Ends s ht hi sound)
