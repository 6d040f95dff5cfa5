-- ===== src/Manager/Progress.antt =====
-- A migration that nothing stops is completed.
use sunbeam_migrate.Prelude.{
  ℕ, suc, ◌≡◌, refl, ap, ◌∙◌, Bool, true, false, none, some, List, [], ◌∷◌, ◌++◌, truthy, arith,
}
use sunbeam_migrate.Constants.{Status}
use sunbeam_migrate.Exec.{Result, ok, Exec, lift, when, continue, ◌>>=◌}
use sunbeam_migrate.Exec.Succeeds.{
  Succeeds, Succeeds-pure, Succeeds-else, Succeeds-bind, Succeeds-try_except,
}
use sunbeam_migrate.Db.Models.{Migration, IsBackend, find_row, save, inserted, updated}
use sunbeam_migrate.Handlers.Interface.{State, Handler, Request, Perform, on_world}
use sunbeam_migrate.Handlers.Factory.{get_migration_handler}
use sunbeam_migrate.Manager.Env.{Env}
use sunbeam_migrate.Db.History.Rows.{find-update, find-append_new}
use sunbeam_migrate.Manager.Lookup.{
  Associated, none_associated, latest, only_migrated, get_handler, classify,
  get_associated_resources,
}
use sunbeam_migrate.Manager.Cleanup.{store, set_status, set_destination}
use sunbeam_migrate.Manager.Parent.{
  resolve, transfer, transfer_failed, new_migration, migrate_new, migrate_parent_resource,
}
use sunbeam_migrate.Manager.Perform.{perform_once, perform_individual_migration}
use sunbeam_migrate.Manager.Contract.Store.{Setter, updated-SameColumns, store-eq}

-- The object is the row that is stored under its key.
pub record IsRow {W : Type 0} (k : ℕ) (m : Migration) (s : State W) : Type 0 where
  pub key : m.id ≡ some k
  pub found : find_row k s.db.rows ≡ some m

module _ {W A B : Type 0} (R : B → State W → Type 0) where
  -- A value that is computed, and then the rest.
  after_lift :
      (r : Result A) (f : A → Exec (State W) B) (a : A) (s : State W)
      → r ≡ ok a
      → Succeeds R (f a) s
      → Succeeds R (lift r >>= f) s
  after_lift r f a s e y = record {
    value = y.value;
    final = y.final;
    runs = ap (λ x. continue f x s) e ∙ y.runs;
    holds = y.holds;
  }

  -- An action on the clouds that returns, and then the rest.
  after_on_world :
      (m : Exec W A) (f : A → Exec (State W) B) (a : A) (s : State W)
      → (m s.world).0 ≡ ok a
      → Succeeds R (f a) (record s { world = (m s.world).1 })
      → Succeeds R (on_world m >>= f) s
  after_on_world m f a s e y = record {
    value = y.value;
    final = y.final;
    runs = ap (λ x. continue f x (record s { world = (m s.world).1 })) e ∙ y.runs;
    holds = y.holds;
  }

-- A block that is left out, and then the rest.
after_skip :
    {W B : Type 0} (R : B → State W → Type 0) (b : Bool) (m : Exec (State W) (Unit {0}))
    (f : Unit {0} → Exec (State W) B) (s : State W)
    → b ≡ false
    → Succeeds R (f tt) s
    → Succeeds R (when b m >>= f) s
after_skip R b m f s e y = rw e y

module _ {W : Type 0} (env : Env W) (k : ℕ) where
  -- A write of a stored row returns the row with the assignment.
  store-Succeeds :
      (set : Setter) (m : Migration) (s : State W)
      → ((x : Migration) → (set x).id ≡ x.id)
      → IsRow k m s
      → Succeeds (λ a t. IsRow k a t × (a.status ≡ (set m).status)) (store env set m) s
  store-Succeeds set m s keeps row =
      let f : Setter = updated env.backend s.db set in
      let same = updated-SameColumns env.backend s.db set m in
      let key : (f m).id ≡ m.id = same.id ∙ keeps m in
      record {
        value = f m;
        final = _;
        runs = store-eq env set m k m s keeps row.key row.found;
        holds = (
          record { key = key ∙ row.key; found = find-update k f s.db.rows m row.found key },
          same.status,
        );
      }

-- The migration is stored, with the status of a migration that is done.
abbrev pub Completed : {W : Type 0} → Migration → State W → Type 0
Completed m s = (m.status ≡ some Status.completed) × ((k : ℕ) × IsRow k m s)

module _ {W : Type 0} (env : Env W) (self : Perform W) (h : Handler W) (q : Request)
    (loaded : get_migration_handler env.load (some q.resource_type) ≡ ok h)
    (independent : (w : W) → (h.get_associated_resources q.resource_id w).0 ≡ ok [])
    (works : (s : State W)
      → Succeeds
          (λ d t. t.db ≡ s.db)
          (h.perform_individual_migration self q.resource_id [])
          s) where
  associated-Succeeds :
      (s : State W)
      → Succeeds
          (λ a t. (a ≡ none_associated) × (t.db ≡ s.db))
          (get_associated_resources env q.resource_type q.resource_id)
          s
  unfolding get_associated_resources get_handler classify
  associated-Succeeds s =
      let R : Associated → State W → Type 0 = λ a t. (a ≡ none_associated) × (t.db ≡ s.db) in
      let t : State W = record s { world = (h.get_associated_resources q.resource_id s.world).1 } in
      after_lift R (get_migration_handler env.load (some q.resource_type)) _ h s loaded (
        after_on_world R (h.get_associated_resources q.resource_id) _ [] s (independent s.world)
          (Succeeds-pure R none_associated t (refl, refl)))

  resolve-none :
      (a : Associated) (t : State W)
      → a ≡ none_associated
      → resolve env self q a t ≡ (ok (none_associated, []), t)
  unfolding resolve
  resolve-none a t e = rw e refl

  abbrev Transferred : ℕ → Migration × List Migration → State W → Type 0
  Transferred k r t = IsRow k r.0 t

  transfer-Succeeds :
      (k : ℕ) (m : Migration) (s : State W)
      → IsRow k m s
      → Succeeds (Transferred k) (transfer env self q h m) s
  unfolding transfer
  transfer-Succeeds k m s row =
      let R = Transferred k in
      let same_row : (t : State W) → t.db ≡ s.db → IsRow k m t =
        λ t e. record { key = row.key; found = ap (λ d. find_row k d.rows) e ∙ row.found } in
      Succeeds-bind (λ a t. (a ≡ none_associated) × (t.db ≡ s.db)) R
        (get_associated_resources env q.resource_type q.resource_id) _ s (associated-Succeeds s)
        λ a t e.
          Succeeds-bind (λ x u. (x ≡ (none_associated, [])) × (u.db ≡ s.db)) R
            (resolve env self q a) _ t
            (record {
              value = (none_associated, []);
              final = t;
              runs = resolve-none a t e.0;
              holds = (refl, e.1);
            })
            λ x u f.
              Succeeds-bind (λ d v. v.db ≡ u.db) R
                (h.perform_individual_migration self q.resource_id x.0.migrated) _ u
                (rw f.0 (works u))
                λ d v g.
                  Succeeds-bind (λ b w. IsRow k b w × (b.status ≡ m.status)) R
                    (store env (set_destination d) m) _ v
                    (store-Succeeds env k (set_destination d) m v (λ y. refl)
                      (same_row v (g ∙ f.1)))
                    λ b w row'. Succeeds-pure R (b, x.1) w row'.0

  parent-Succeeds :
      (s : State W)
      → IsBackend env.backend
      → only_migrated (latest env q.resource_type q.resource_id s.db) ≡ none
      → Succeeds (λ r t. (k : ℕ) × Transferred k r t) (migrate_parent_resource env self q h) s
  unfolding migrate_parent_resource migrate_new new_migration save
  parent-Succeeds s laws unmigrated =
      let k = env.backend.next_id s.db.rows in
      let m = inserted env.backend s.db (new_migration env h q) in
      let t : State W = record s {
        db = record { rows = s.db.rows ++ m ∷ []; readings = suc s.db.readings };
      } in
      let row : IsRow k m t = record {
        key = refl;
        found = find-append_new k s.db.rows m (laws.fresh s.db.rows) (ground arith);
      } in
      let x =
        Succeeds-try_except (Transferred k) (transfer env self q h m) (transfer_failed env self q m)
          t (transfer-Succeeds k m t row) in
      record { value = x.value; final = x.final; runs = rw unmigrated x.runs; holds = (k, x.holds) }

  once-Succeeds :
      (s : State W)
      → IsBackend env.backend
      → truthy q.resource_id ≡ true
      → q.include_members ≡ false
      → q.cleanup_source ≡ false
      → only_migrated (latest env q.resource_type q.resource_id s.db) ≡ none
      → Succeeds Completed (perform_once env self q) s
  unfolding perform_once get_handler
  once-Succeeds s laws named alone keep unmigrated =
      after_lift Completed (get_migration_handler env.load (some q.resource_type)) _ h s loaded (
        rw named (
          Succeeds-bind (λ r t. (k : ℕ) × Transferred k r t) Completed
            (migrate_parent_resource env self q h) _ s (parent-Succeeds s laws unmigrated)
            λ r t x.
              let pending = set_status Status.pending_members in
              let done = set_status Status.completed in
              Succeeds-bind (λ a u. IsRow x.0 a u × (a.status ≡ some Status.pending_members))
                Completed (store env pending r.0) _ t
                (store-Succeeds env x.0 pending r.0 t (λ y. refl) x.1)
                λ a u y. after_skip Completed q.include_members _ _ u alone (
                  after_skip Completed q.cleanup_source _ _ u keep (
                    let z = store-Succeeds env x.0 done a u (λ y. refl) y.0 in
                    record {
                      value = z.value;
                      final = z.final;
                      runs = z.runs;
                      holds = (z.holds.1, (x.0, z.holds.0));
                    }))))

-- A real migration of a resource that has not been migrated, without its members and without the
-- cleanup of its source, is completed: it returns, and the migration that it returns is stored with
-- the status `completed`. The resource type has a handler, the id is not empty, the resource depends
-- on no other, the handler's own migration of it returns and leaves the database alone, and the
-- depth of calls is positive.
pub perform-Succeeds :
    {W : Type 0} (env : Env W) (n : ℕ) (h : Handler W) (q : Request) (s : State W)
    → get_migration_handler env.load (some q.resource_type) ≡ ok h
    → ((w : W) → (h.get_associated_resources q.resource_id w).0 ≡ ok [])
    → ((t : State W)
        → Succeeds
            (λ d u. u.db ≡ t.db)
            (h.perform_individual_migration (perform_individual_migration env n) q.resource_id [])
            t)
    → IsBackend env.backend
    → truthy q.resource_id ≡ true
    → q.dry_run ≡ false
    → q.include_members ≡ false
    → q.cleanup_source ≡ false
    → only_migrated (latest env q.resource_type q.resource_id s.db) ≡ none
    → Succeeds Completed (perform_individual_migration env (suc n) q) s
unfolding perform_individual_migration
perform-Succeeds env n h q s loaded independent works laws named real alone keep unmigrated =
    Succeeds-else Completed q.dry_run _ _ s real (
      once-Succeeds env (perform_individual_migration env n) h q loaded independent works s laws
        named alone keep unmigrated)
