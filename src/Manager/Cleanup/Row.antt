-- ===== src/Manager/Cleanup/Row.antt =====
-- `cleanup_migration_source`: what it leaves of the migration's row.
use Prim.Native.String.{◌++◌ as str_append}
use mathlib.Core.Path.{subst, sym}
use sunbeam_migrate.Prelude.{ℕ, ◌≡◌, refl, true, some, set?}
use sunbeam_migrate.Constants.{Status}
use sunbeam_migrate.Exec.{
  Error, Result, ok, err, raise, handle, try_except, continue, lift, ◌>>=◌, ◌>>◌,
}
use sunbeam_migrate.Db.Models.{Migration, find_row, updated}
use sunbeam_migrate.Db.History.Rows.{find-update}
use sunbeam_migrate.Handlers.Interface.{State, Handler, on_world}
use sunbeam_migrate.Handlers.Base.{text_of}
use sunbeam_migrate.Handlers.Factory.{get_migration_handler}
use sunbeam_migrate.Manager.Env.{Env}
use sunbeam_migrate.Manager.Lookup.{get_handler}
use sunbeam_migrate.Manager.Cleanup.{
  store, set_failure, set_source_removed, remove_source, cleanup_failed, cleanup_migration_source,
}
use sunbeam_migrate.Manager.Contract.Store.{store-eq, updated-SameColumns}

-- The source is gone and the row says so, or its removal failed and the row says why.
pub data Cleaned {W : Type 0} (env : Env W) (r : Migration)
    : Result Migration → Migration → Type 0 where
  removed :
      (r' : Migration) → r'.source_removed ≡ true → r'.status ≡ r.status → Cleaned env r (ok r') r'
  not_removed :
      (c : Error) (r' : Migration)
      → r'.source_removed ≡ r.source_removed
      → r'.status ≡ some Status.source_cleanup_failed
      → r'.error_message ≡ some (str_append "Source cleanup failed, error: " (env.repr c))
      → Cleaned env r (err c) r'

-- The row under the key `i` after the action.
abbrev pub Leaves : {W : Type 0} → Env W → ℕ → Migration → Result Migration × State W → Type 0
Leaves env i r x = (r' : Migration) × (find_row i x.1.db.rows ≡ some r') × Cleaned env r x.0 r'

module _ {W : Type 0} (env : Env W) (m : Migration) (i : ℕ) (r : Migration)
    (id : m.id ≡ some i) where
  cleanup_failed-Leaves :
      (c : Error) (s : State W)
      → find_row i s.db.rows ≡ some r
      → Leaves env i r (cleanup_failed env m c s)
  unfolding cleanup_failed
  cleanup_failed-Leaves c s found =
      let set =
        set_failure Status.source_cleanup_failed
          (str_append "Source cleanup failed, error: " (env.repr c)) in
      let f = updated env.backend s.db set in
      let cols = updated-SameColumns env.backend s.db set r in
      subst (λ (y : Result Migration × State W). Leaves env i r (continue (λ _. raise c) y.0 y.1))
        (sym (store-eq env set m i r s (λ x. refl) id found))
        (
          f r,
          find-update i f s.db.rows r found cols.id,
          not_removed c (f r) cols.source_removed cols.status cols.error_message,
        )

  deleted-Leaves :
      (d : Result (Unit {0})) (s : State W)
      → find_row i s.db.rows ≡ some r
      → Leaves env i r (
          let (a, s') = continue (λ _. store env set_source_removed m) d s in
          handle (cleanup_failed env m) a s')
  deleted-Leaves (err c) s found = cleanup_failed-Leaves c s found
  deleted-Leaves (ok done) s found =
      let f = updated env.backend s.db set_source_removed in
      let cols = updated-SameColumns env.backend s.db set_source_removed r in
      subst
        (λ (y : Result Migration × State W). Leaves env i r (handle (cleanup_failed env m) y.0 y.1))
        (sym (store-eq env set_source_removed m i r s (λ x. refl) id found))
        (
          f r,
          find-update i f s.db.rows r found cols.id,
          removed (f r) cols.source_removed cols.status,
        )

  handled-Leaves :
      (h : Result (Handler W)) (s : State W)
      → find_row i s.db.rows ≡ some r
      → Leaves env i r (
          try_except
            (lift h >>= λ k.
              on_world (k.delete_source_resource (text_of m.source_id))
              >> store env set_source_removed m)
            (cleanup_failed env m)
            s)
  handled-Leaves (err c) s found = cleanup_failed-Leaves c s found
  handled-Leaves (ok h) s found =
      let (d, w) = h.delete_source_resource (text_of m.source_id) s.world in
      deleted-Leaves d (record s { world = w }) found

-- For a migration whose row is stored and that names its source, `cleanup_migration_source` either
-- returns the row with `source_removed` set and its status kept, or raises and leaves the row with
-- `source_removed` kept, the status "source-cleanup-failed" and the text of the error.
pub cleanup_migration_source-Leaves :
    {W : Type 0} (env : Env W) (m : Migration) (i : ℕ) (r : Migration) (s : State W)
    → m.id ≡ some i
    → find_row i s.db.rows ≡ some r
    → set? m.source_id ≡ true
    → Leaves env i r (cleanup_migration_source env m s)
unfolding cleanup_migration_source remove_source get_handler
cleanup_migration_source-Leaves env m i r s id found named =
    rw named (handled-Leaves env m i r id (get_migration_handler env.load m.resource_type) s found)
