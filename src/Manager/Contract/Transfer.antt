-- ===== src/Manager/Contract/Transfer.antt =====
-- The contract of a new migration: the handler's work, the row that it leaves, and the row that a
-- failure leaves.
use sunbeam_migrate.Prelude.{
  ℕ, String, ◌≡◌, refl, ◌∙◌, true, ◌⊎◌, inl, List, some, none, All, All-map, ap, truthy,
}
use sunbeam_migrate.Constants.{Status, is_migrated}
use sunbeam_migrate.Exec.{Error}
use sunbeam_migrate.Db.Models.{Migration, Db, find_row, updated}
use sunbeam_migrate.Db.History.{IsComplete}
use sunbeam_migrate.Db.History.Rows.{find-Evolves}
use sunbeam_migrate.Db.History.Soundness.{IsSound, find-id}
use sunbeam_migrate.Handlers.Interface.{
  MigratedResource, State, Handler, Request, Perform, IsHandler,
}
use sunbeam_migrate.Manager.Env.{Env}
use sunbeam_migrate.Manager.Lookup.{get_associated_resources}
use sunbeam_migrate.Manager.Lookup.Latest.{IsOf}
use sunbeam_migrate.Manager.Cleanup.{store, set_destination}
use sunbeam_migrate.Manager.Parent.{resolve, transfer}
use sunbeam_migrate.Manager.Contract.{
  Grows, Grows-refl, Grows-trans, Ends, returns, Anything, Ends-bind, Ends-of, Ends-weaken,
  Ends-step, Ends-Grows,
}
use sunbeam_migrate.Manager.Contract.Store.{updated-SameColumns, store_stored}
use sunbeam_migrate.Manager.Contract.Cleanup.{IsKnown, IsKnown-Grows}
use sunbeam_migrate.Manager.Contract.Known.{Known-update}
use sunbeam_migrate.Manager.Contract.Parent.{IsPerform, Answers, get_associated-Ends, resolve-Ends}

-- The object's row names the resource and its destination; it is new since `d`, or migrated.
pub record Carried (d : Db) (t i : String) (m : Migration) (e : Db) : Type 0 where
  pub key : ℕ
  pub row : Migration
  pub id : m.id ≡ some key
  pub found : find_row key e.rows ≡ some row
  pub of : IsOf t i row
  pub complete : IsComplete row
  pub own : (find_row key d.rows ≡ none) ⊎ (is_migrated row.status ≡ true)

-- A new row of the resource says that its migration failed, and why.
pub record FailedRow (d : Db) (t i text : String) (e : Db) : Type 0 where
  pub key : ℕ
  pub row : Migration
  pub found : find_row key e.rows ≡ some row
  pub new : find_row key d.rows ≡ none
  pub of : IsOf t i row
  pub status : row.status ≡ some Status.failed
  pub message : row.error_message ≡ some text

module _ {W : Type 0} (env : Env W) (h : Handler W) (lawful : IsHandler h) where
  -- The handler's work, by its laws.
  handler-Ends :
      (self : Perform W) (keeps : IsPerform self)
      → (i : String) (deps : List MigratedResource) (s : State W) → IsSound s.db.rows
      → Ends s.db (λ x e. truthy x ≡ true) Anything (h.perform_individual_migration self i deps s)
  handler-Ends self keeps i deps s sound =
      let R : Db → Db → Type 0 = λ d e. IsSound d.rows → Grows d e in
      Ends-of s.db (λ x e. truthy x ≡ true) (h.perform_individual_migration self i deps s)
        (lawful.database_through_manager R (λ d. Grows-refl d)
          (λ a b c g k sa. let gab = g sa in Grows-trans a b c gab (k gab.0)) self
          (λ q s' sound'. Ends-Grows s'.db (Answers q) Anything (self q s') (keeps q s' sound')) i
          deps s sound)
        (λ x e. lawful.returns_id self i deps s e)

  -- The row of a migration in progress, which only this call writes.
  pub record InProgress (d : Db) (t i : String) (m : Migration) (e : Db) : Type 0 where
    pub key : ℕ
    pub row : Migration
    pub id : m.id ≡ some key
    pub found : find_row key e.rows ≡ some row
    pub new : find_row key d.rows ≡ none
    pub of : IsOf t i row
    pub status : row.status ≡ some Status.in_progress

  -- Nothing that happens in between touches that row.
  pub InProgress-Grows :
      (d : Db) (t i : String) (m : Migration) (e f : Db)
      → Grows e f
      → InProgress d t i m e
      → InProgress d t i m f
  InProgress-Grows d t i m e f g p =
      let (r', found, step) = find-Evolves p.key e.rows f.rows p.row g.1 p.found in
      let same : r' ≡ p.row = step.untouched (rw p.status) in
      record {
        key = p.key;
        row = p.row;
        id = p.id;
        found = rw (← same) found;
        new = p.new;
        of = p.of;
        status = p.status;
      }

  store_destination-Ends :
      (E : Error → Db → Type 0)
      → (d : Db) (t i x : String) (m : Migration) (s : State W) → truthy t ≡ true
      → truthy i ≡ true
      → truthy x ≡ true
      → Grows d s.db
      → InProgress d t i m s.db
      → Ends d
          (λ a e. Carried d t i a e × ((o : Migration) → IsKnown env s.db o → IsKnown env e o))
          E
          (store env (set_destination x) m s)
  store_destination-Ends E d t i x m s ht hi hx g p =
      let cols = updated-SameColumns env.backend s.db (set_destination x) p.row in
      Ends-weaken d _ _ E E
        (λ a e g' w. (
          record {
            key = p.key;
            row = a;
            id = rw w.0 (cols.id ∙ find-id p.key s.db.rows p.row p.found);
            found = w.1;
            of = rw w.0 (record {
              resource_type = cols.resource_type ∙ p.of.resource_type;
              source_id = cols.source_id ∙ p.of.source_id;
              archived = cols.archived ∙ p.of.archived;
            });
            complete = rw w.0 (record {
              resource_type = rw (cols.resource_type, p.of.resource_type) ht;
              source_id = rw (cols.source_id, p.of.source_id) hi;
              destination_id = rw cols.destination_id hx;
            });
            own = inl p.new;
          },
          λ o k. (
            k.0,
            k.1,
            Known-update k.0 k.1 o s.db e p.key (updated env.backend s.db (set_destination x)) p.row
                (λ y. (updated-SameColumns env.backend s.db (set_destination x) y).id) p.found
                (rw p.status) (ap (λ (y : Db). y.rows) w.2) k.2,
          ),
        ))
        (λ c e _ w. w) _
        (store_stored env E d (set_destination x) m p.key p.row s (λ r. refl) p.id p.found g
          (λ mig. absurd (cc (cols.status, p.status, mig))) (inl p.new))

  module _ (self : Perform W) (keeps : IsPerform self) (q : Request) where
    pub transfer-Ends :
        (d : Db) (m : Migration) (s : State W)
        → truthy q.resource_type ≡ true
        → truthy q.resource_id ≡ true
        → Grows d s.db
        → InProgress d q.resource_type q.resource_id m s.db
        → Ends d
            (λ p e. Carried d q.resource_type q.resource_id p.0 e × All (IsKnown env e) p.1)
            (λ c e. Grows s.db e)
            (transfer env self q h m s)
    unfolding transfer
    transfer-Ends d m s ht hi g p =
        let g0 = Grows-refl s.db g.0 in
        Ends-bind d _ _ _ (get_associated_resources env q.resource_type q.resource_id) _ s
          (Ends-step d s.db s.db _ g g0 _
            (get_associated-Ends env q.resource_type q.resource_id s g.0))
          λ a s1 g1 k1.
            Ends-bind d _ _ _ (resolve env self q a) _ s1
              (Ends-step d s.db s1.db _ g k1.0 _ (resolve-Ends env self keeps q a s1 g1.0))
              λ resolved s2 g2 k2.
                Ends-bind d _ _ _
                  (h.perform_individual_migration self q.resource_id resolved.0.migrated) _ s2
                  (Ends-step d s.db s2.db _ g k2.0 _
                    (handler-Ends self keeps q.resource_id resolved.0.migrated s2 g2.0))
                  λ x s3 g3 k3.
                    let p3 = InProgress-Grows d q.resource_type q.resource_id m s.db s3.db k3.0 p in
                    Ends-bind d _ _ _ (store env (set_destination x) m) _ s3
                      (store_destination-Ends _ d q.resource_type q.resource_id x m s3 ht hi k3.2 g3
                        p3)
                      λ m' s4 g4 k4.
                        returns (m', resolved.1) s4 g4
                          (
                            k4.0,
                            All-map (λ o known. k4.1 o (IsKnown-Grows env s2.db s3.db k3.1 o known))
                                resolved.1 k2.2,
                          )
