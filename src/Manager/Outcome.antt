-- ===== src/Manager/Outcome.antt =====
-- What `perform_individual_migration` leaves behind: the table it grows, the migration it returns,
-- the failed row of a migration that raises, and the calls that change nothing.
use mathlib.Core.Path.{subst}
use sunbeam_migrate.Prelude.{
  ℕ, zero, suc, String, ◌≡◌, refl, Bool, true, false, Bool-cases, inl, inr, some, List, [], truthy,
  if◌then◌else◌,
}
use sunbeam_migrate.Constants.{Status, is_migrated}
use sunbeam_migrate.Exec.{Error, Result, ok, err, Exec, when, ◌>>=◌, ◌>>◌}
use sunbeam_migrate.Exec.Preserves.{Preserves, Preserves-bind, Preserves-pure, Preserves-if}
use sunbeam_migrate.Db.Models.{Migration, Db, find_row}
use sunbeam_migrate.Db.History.{Evolves, RowSound, IsComplete}
use sunbeam_migrate.Db.History.Soundness.{IsSound, find-All}
use sunbeam_migrate.Handlers.Interface.{State, Handler, Request, Perform, IsHandler}
use sunbeam_migrate.Handlers.Factory.{get_migration_handler}
use sunbeam_migrate.Manager.Env.{Env, IsEnv}
use sunbeam_migrate.Manager.Lookup.{latest, only_migrated, get_handler}
use sunbeam_migrate.Manager.Lookup.Latest.{IsOf}
use sunbeam_migrate.Manager.Cleanup.{store, set_status}
use sunbeam_migrate.Manager.Parent.{migrate_parent_resource}
use sunbeam_migrate.Manager.DryRun.Unchanged.{QueriesKeep, dry_run_migration-Preserves}
use sunbeam_migrate.Manager.Perform.{
  members_step, cleanup_step, perform_once, perform_individual_migration,
}
use sunbeam_migrate.Manager.Contract.{Grows, Ends, returns, raises, Ends-Grows}
use sunbeam_migrate.Manager.Contract.Parent.{Completed, Answers}
use sunbeam_migrate.Manager.Contract.Transfer.{FailedRow}
use sunbeam_migrate.Manager.Contract.New.{failure_text, migrate_parent_resource-Ends}
use sunbeam_migrate.Manager.Contract.Perform.{perform_individual_migration-IsPerform}

-- A completed migration of the resource, stored, with a resource on the destination.
pub record Migrated (rows : List Migration) (t i : String) (m : Migration) : Type 0 where
  pub key : ℕ
  pub stored : find_row key rows ≡ some m
  pub status : m.status ≡ some Status.completed
  pub of : IsOf t i m
  pub complete : IsComplete m

Completed-Migrated :
    (t i : String) (m : Migration) (e : Db)
    → IsSound e.rows
    → Completed t i m e
    → Migrated e.rows t i m
Completed-Migrated t i m e sound c =
    let same : c.known.row ≡ m = cc (c.known.found, c.stored) in
    let migrated : is_migrated m.status ≡ true =
      subst (λ r. is_migrated r.status ≡ true) same c.known.migrated in
    record {
      key = c.known.key;
      stored = c.stored;
      status = c.status;
      of = subst (IsOf t i) same c.known.of;
      complete = find-All RowSound c.known.key e.rows m sound.complete c.stored migrated;
    }

module _ {W A : Type 0} (d : Db) (Q : A → Db → Type 0) (E : Error → Db → Type 0) where
  Ends-returned :
      (x : Result A × State W) (a : A) → Ends d Q E x → x.0 ≡ ok a → Grows d x.1.db × Q a x.1.db
  Ends-returned x a (returns b s g q) e = (g, subst (λ c. Q c s.db) (cc e) q)
  Ends-returned x a (raises c s g q) e = absurd (cc e)

  Ends-raised :
      (x : Result A × State W) (c : Error)
      → Ends d Q E x
      → x.0 ≡ err c
      → Grows d x.1.db × E c x.1.db
  Ends-raised x c (returns b s g q) e = absurd (cc e)
  Ends-raised x c (raises b s g q) e = (g, subst (λ y. E y s.db) (cc e) q)

-- Where the laws IsEnv hold, from a sound table, when a real run (not a dry run) returns a
-- migration, at any call depth, that object is a stored row of the requested resource, not
-- archived, in the status "completed", with its type, source id and destination id set.
pub perform-Migrated :
    {W : Type 0} (env : Env W) (laws : IsEnv env) (n : ℕ) (q : Request) (s : State W)
    {m : Migration}
    → q.dry_run ≡ false
    → IsSound s.db.rows
    → (perform_individual_migration env n q s).0 ≡ ok m
    → Migrated (perform_individual_migration env n q s).1.db.rows q.resource_type q.resource_id m
perform-Migrated env laws n q s {m} real sound e =
    let x = perform_individual_migration env n q s in
    let (g, k) =
      Ends-returned s.db (Answers q) _ x m
        (perform_individual_migration-IsPerform env laws n q s sound) e in
    Completed-Migrated q.resource_type q.resource_id m x.1.db g.0 (k real)

-- Where the laws IsEnv hold, a run from a sound table leaves a sound table, whether it returns or
-- raises, with dependencies, members and cleanup, at any call depth: primary keys are distinct and
-- every migrated row names its resource and its destination.
pub perform-IsSound :
    {W : Type 0} (env : Env W) (laws : IsEnv env) (n : ℕ) (q : Request) (s : State W)
    → IsSound s.db.rows
    → IsSound (perform_individual_migration env n q s).1.db.rows
perform-IsSound env laws n q s sound =
    (Ends-Grows s.db _ _ _ (perform_individual_migration-IsPerform env laws n q s sound)).0

-- Where the laws IsEnv hold, a run from a sound table, whether it returns or raises, removes no
-- row, leaves the rows that are not in a migrated status (such as failed ones) as they are, and
-- keeps migrated rows migrated, for the same resource and with the same destination; new rows come
-- after them.
pub perform-Evolves :
    {W : Type 0} (env : Env W) (laws : IsEnv env) (n : ℕ) (q : Request) (s : State W)
    → IsSound s.db.rows
    → Evolves s.db.rows (perform_individual_migration env n q s).1.db.rows
perform-Evolves env laws n q s sound =
    (Ends-Grows s.db _ _ _ (perform_individual_migration-IsPerform env laws n q s sound)).1

-- Where the laws IsEnv hold: when `_migrate_parent_resource` raises, for a resource with a type and
-- an id, from a sound table and with a lawful handler, the error's text is recorded: a row that was
-- not there before, of that resource, has the status "failed" and the message "Migration failed,
-- error: …".
pub migrate_parent_resource-FailedRow :
    {W : Type 0} (env : Env W) (laws : IsEnv env) (n : ℕ) (h : Handler W) (lawful : IsHandler h)
    → (q : Request) (s : State W) {c : Error} → truthy q.resource_type ≡ true
    → truthy q.resource_id ≡ true
    → IsSound s.db.rows
    → (migrate_parent_resource env (perform_individual_migration env n) q h s).0 ≡ err c
    → FailedRow s.db q.resource_type q.resource_id
        (failure_text env c)
        (migrate_parent_resource env (perform_individual_migration env n) q h s).1.db
migrate_parent_resource-FailedRow env laws n h lawful q s {c} ht hi sound e =
    (Ends-raised s.db _ _ _ c
      (migrate_parent_resource-Ends env h lawful laws (perform_individual_migration env n)
        (perform_individual_migration-IsPerform env laws n) q s ht hi sound)
      e).1

-- The state after a conditional action.
if_leaves :
    {S A : Type 0} (P : S → Type 0) (b : Bool) (m n : Exec S A) (s : S)
    → (b ≡ true → P (m s).1)
    → (b ≡ false → P (n s).1)
    → P ((if b then m else n) s).1
if_leaves P true m n s yes_case no_case = yes_case refl
if_leaves P false m n s yes_case no_case = no_case refl

-- A dry run leaves the database and the clouds as they are, whether it returns or raises, if the
-- handlers' queries for dependencies and members do.
pub perform-dry_run :
    {W : Type 0} (env : Env W) (n : ℕ) (q : Request) (s : State W)
    → q.dry_run ≡ true
    → QueriesKeep env (λ x. x ≡ s)
    → (perform_individual_migration env n q s).1 ≡ s
unfolding perform_individual_migration
perform-dry_run env zero q s dry queries = refl
perform-dry_run env (suc n) q s dry queries =
    if_leaves (λ x. x ≡ s) q.dry_run _ _ s
      (λ _. (dry_run_migration-Preserves env (λ x. x ≡ s) queries n q).after s refl)
      (λ real. absurd (cc (dry, real)))

module _ {W : Type 0} (env : Env W) (s : State W) where
  -- The clouds are those at the start.
  abbrev SameWorld : State W → Type 0
  SameWorld x = x.world ≡ s.world

  store-SameWorld :
      (set : Migration → Migration) (m : Migration) → Preserves SameWorld (store env set m)
  store-SameWorld set m = record { after = λ x same. same }

module _ {W : Type 0} (env : Env W) (self : Perform W) (q : Request) (s : State W) where
  -- What is found migrated is returned at once.
  parent-found :
      (h : Handler W) {m : Migration}
      → only_migrated (latest env q.resource_type q.resource_id s.db) ≡ some m
      → migrate_parent_resource env self q h s ≡ (ok (m, []), s)
  unfolding migrate_parent_resource
  parent-found h found = rw found

  -- The rest of the call, without members and without cleanup.
  finish-SameWorld :
      (h : Handler W) (p : Migration × List Migration)
      → q.include_members ≡ false
      → q.cleanup_source ≡ false
      → Preserves (SameWorld env s) (
          store env (set_status Status.pending_members) p.0 >>= λ m.
          when q.include_members (members_step env self q h m)
          >> (when q.cleanup_source (cleanup_step env self q m p.1)
              >> store env (set_status Status.completed) m))
  finish-SameWorld h p alone kept =
      Preserves-bind _ _ (store-SameWorld env s (set_status Status.pending_members) p.0) λ m.
        Preserves-bind (when q.include_members (members_step env self q h m)) _
          (Preserves-if q.include_members _ _ (λ e. absurd (cc (e, alone)))
            (λ _. Preserves-pure tt))
          λ _.
            Preserves-bind (when q.cleanup_source (cleanup_step env self q m p.1)) _
              (Preserves-if q.cleanup_source _ _ (λ e. absurd (cc (e, kept)))
                (λ _. Preserves-pure tt))
              λ _. store-SameWorld env s (set_status Status.completed) m

  perform_once-again :
      (r : Result (Handler W)) {m : Migration}
      → get_migration_handler env.load (some q.resource_type) ≡ r
      → q.include_members ≡ false
      → q.cleanup_source ≡ false
      → only_migrated (latest env q.resource_type q.resource_id s.db) ≡ some m
      → (perform_once env self q s).1.world ≡ s.world
  unfolding perform_once get_handler
  perform_once-again (err c) e alone kept found = rw e refl
  perform_once-again (ok h) {m} e alone kept found = elim (Bool-cases (truthy q.resource_id)) [
    | inr empty ↦ rw e (rw empty refl)
    | inl named ↦ rw e (
        rw named (rw (parent-found h found) ((finish-SameWorld h (m, []) alone kept).after s refl)))
  ]

-- Once the latest migration of a resource is in a migrated status, running its migration again (not
-- a dry run), without members and without cleanup, leaves the clouds as they are.
pub perform-again :
    {W : Type 0} (env : Env W) (n : ℕ) (q : Request) (s : State W) {m : Migration}
    → q.dry_run ≡ false
    → q.include_members ≡ false
    → q.cleanup_source ≡ false
    → only_migrated (latest env q.resource_type q.resource_id s.db) ≡ some m
    → (perform_individual_migration env n q s).1.world ≡ s.world
unfolding perform_individual_migration
perform-again env zero q s real alone kept found = refl
perform-again env (suc n) q s real alone kept found =
    if_leaves (SameWorld env s) q.dry_run _ _ s (λ dry. absurd (cc (dry, real)))
      (λ _. perform_once-again env (perform_individual_migration env n) q s _ refl alone kept found)
