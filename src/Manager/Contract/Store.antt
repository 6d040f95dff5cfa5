-- ===== src/Manager/Contract/Store.antt =====
-- The contracts of `save`: of a new migration, and of a stored one.
use mathlib.Core.Path.{subst}
use sunbeam_migrate.Prelude.{
  ℕ, suc, ◌≡◌, refl, ◌∙◌, ◌⊎◌, inl, inr, none, some, [], ◌∷◌, ◌++◌, arith,
}
use sunbeam_migrate.Exec.{Error, ok}
use sunbeam_migrate.Db.Models.{
  Migration, Db, Backend, IsBackend, find_row, update_row, save, inserted, updated,
}
use sunbeam_migrate.Db.History.{RowStep, RowSound, Evolves}
use sunbeam_migrate.Db.History.Rows.{
  Evolves-append, Evolves-trans, Evolves-update, Evolves-update_new, find-update, find-append_new,
}
use sunbeam_migrate.Db.History.Soundness.{IsSound, IsSound-append, IsSound-update}
use sunbeam_migrate.Handlers.Interface.{State}
use sunbeam_migrate.Manager.Env.{Env}
use sunbeam_migrate.Manager.Cleanup.{store}
use sunbeam_migrate.Manager.Contract.{Grows, Ends, returns}

abbrev pub Setter : Type 0
Setter = Migration → Migration

-- What a write leaves of the columns.
pub record SameColumns (r r' : Migration) : Type 0 where
  pub id : r'.id ≡ r.id
  pub status : r'.status ≡ r.status
  pub source_id : r'.source_id ≡ r.source_id
  pub resource_type : r'.resource_type ≡ r.resource_type
  pub destination_id : r'.destination_id ≡ r.destination_id
  pub archived : r'.archived ≡ r.archived
  pub external : r'.external ≡ r.external
  pub source_removed : r'.source_removed ≡ r.source_removed
  pub error_message : r'.error_message ≡ r.error_message

pub updated-SameColumns :
    (b : Backend) (db : Db) (set : Setter) (r : Migration)
    → SameColumns (set r) (updated b db set r)
updated-SameColumns b db set r = ground arith

module _ {W : Type 0} (env : Env W) where
  -- The state after a stored row has been written.
  abbrev pub after_update : State W → Setter → ℕ → State W
  after_update s set i = record s {
    db = record {
      rows = update_row i (updated env.backend s.db set) s.db.rows;
      readings = suc s.db.readings;
    };
  }

  pub store-eq :
      (set : Setter) (m : Migration) (i : ℕ) (r : Migration) (s : State W)
      → ((x : Migration) → (set x).id ≡ x.id)
      → m.id ≡ some i
      → find_row i s.db.rows ≡ some r
      → store env set m s ≡ (ok (updated env.backend s.db set r), after_update s set i)
  unfolding save
  store-eq set m i r s keeps k found = rw (
    k,
    find-update i (updated env.backend s.db set) s.db.rows r found
        ((updated-SameColumns env.backend s.db set r).id ∙ keeps r),
  )

  -- Writing a row that is new since `d`, or by a step.
  pub store_stored :
      (E : Error → Db → Type 0)
      → (d : Db) (set : Setter) (m : Migration) (i : ℕ) (r : Migration) (s : State W)
      → ((x : Migration) → (set x).id ≡ x.id)
      → m.id ≡ some i
      → find_row i s.db.rows ≡ some r
      → Grows d s.db
      → RowSound (updated env.backend s.db set r)
      → (find_row i d.rows ≡ none) ⊎ RowStep r (updated env.backend s.db set r)
      → Ends d
          (λ a e.
            (a ≡ updated env.backend s.db set r)
            × (find_row i e.rows ≡ some a)
            × (e ≡ (after_update s set i).db))
          E
          (store env set m s)
  store_stored E d set m i r s keeps k found g sound own =
      let f : Setter = updated env.backend s.db set in
      let keeps' : (x : Migration) → (f x).id ≡ x.id =
        λ x. (updated-SameColumns env.backend s.db set x).id ∙ keeps x in
      let s' = after_update s set i in
      let sound' : IsSound s'.db.rows =
        IsSound-update i f s.db.rows g.0 keeps' (λ x e. subst (λ y. RowSound (f y)) (cc) sound) in
      let grown : Evolves d.rows s'.db.rows = elim own [
        | inl new ↦ Evolves-update_new i f d.rows s.db.rows new g.1
        | inr step ↦
            Evolves-trans d.rows s.db.rows s'.db.rows g.1
              (Evolves-update i f s.db.rows r found step)
      ] in
      rw (store-eq set m i r s keeps k found) (
        returns (f r) s' (sound', grown) (refl, find-update i f s.db.rows r found (keeps' r), refl))

  -- Writing the row of a new object.
  pub insert_new :
      (m : Migration) (s : State W)
      → IsBackend env.backend
      → m.id ≡ none
      → IsSound s.db.rows
      → RowSound (inserted env.backend s.db m)
      → let r = inserted env.backend s.db m in
        let i = env.backend.next_id s.db.rows in
        let s' : State W = record s {
          db = record { rows = s.db.rows ++ r ∷ []; readings = suc s.db.readings };
        } in
        (store env (λ x. x) m s ≡ (ok r, s'))
        × Grows s.db s'.db
        × (find_row i s.db.rows ≡ none)
        × (find_row i s'.db.rows ≡ some r)
  unfolding save
  insert_new m s laws unsaved sound c =
      let r = inserted env.backend s.db m in
      let i = env.backend.next_id s.db.rows in
      let fresh = laws.fresh s.db.rows in
      (
        rw unsaved,
        (IsSound-append i s.db.rows r sound fresh refl c, Evolves-append s.db.rows (r ∷ [])),
        fresh,
        find-append_new i s.db.rows r fresh (ground arith),
      )
