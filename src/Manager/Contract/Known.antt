-- ===== src/Manager/Contract/Known.antt =====
-- Objects that name a stored, migrated row; the assignments that keep such a row migrated.
use mathlib.Core.Path.{subst, sym}
use sunbeam_migrate.Prelude.{ℕ, String, ◌≡◌, ◌≢◌, refl, ◌∙◌, inr, true, false, some}
use sunbeam_migrate.Constants.{Status, is_migrated, list_status_migrated}
use sunbeam_migrate.Exec.{Error}
use sunbeam_migrate.Db.Models.{Migration, Db, find_row, update_row, updated}
use sunbeam_migrate.Db.History.{StaysMigrated, RowStep, RowSound, IsComplete}
use sunbeam_migrate.Db.History.Rows.{find-Evolves, find-update_ne}
use sunbeam_migrate.Db.History.Soundness.{find-All, find-id}
use sunbeam_migrate.Handlers.Interface.{State}
use sunbeam_migrate.Manager.Env.{Env}
use sunbeam_migrate.Manager.Lookup.Latest.{IsOf}
use sunbeam_migrate.Manager.Cleanup.{store, set_status, set_failure, set_source_removed}
use sunbeam_migrate.Manager.Contract.{Grows, Ends, Ends-weaken}
use sunbeam_migrate.Manager.Contract.Store.{Setter, SameColumns, updated-SameColumns, store_stored}

-- The object's row is migrated, for this resource.
pub record Known (t i : String) (m : Migration) (e : Db) : Type 0 where
  pub key : ℕ
  pub row : Migration
  pub id : m.id ≡ some key
  pub found : find_row key e.rows ≡ some row
  pub migrated : is_migrated row.status ≡ true
  pub of : IsOf t i row

pub IsOf-stays : (t i : String) (r r' : Migration) → StaysMigrated r r' → IsOf t i r → IsOf t i r'
IsOf-stays t i r r' h o = record {
  resource_type = h.resource_type ∙ o.resource_type;
  source_id = h.source_id ∙ o.source_id;
  archived = h.archived ∙ o.archived;
}

pub Known-Grows :
    (t i : String) (m : Migration) (d e : Db) → Grows d e → Known t i m d → Known t i m e
Known-Grows t i m d e g k =
    let (r', found, step) = find-Evolves k.key d.rows e.rows k.row g.1 k.found in
    let stays = step.migrated k.migrated in
    record {
      key = k.key;
      row = r';
      id = k.id;
      found = found;
      migrated = stays.status;
      of = IsOf-stays t i k.row r' stays k.of;
    }

-- The assignment keeps a migrated row migrated.
pub record IsMark (set : Setter) : Type 0 where
  pub id : (r : Migration) → (set r).id ≡ r.id
  pub stays : (r : Migration) → is_migrated r.status ≡ true → StaysMigrated r (set r)

pub set_status-IsMark : (s : Status) → list_status_migrated s ≡ true → IsMark (set_status s)
set_status-IsMark s h = record {
  id = λ r. refl;
  stays = λ r m. record {
    status = h;
    id = refl;
    source_id = refl;
    resource_type = refl;
    destination_id = refl;
    archived = refl;
    external = refl;
  };
}

pub set_failure-IsMark :
    (s : Status) (text : String) → list_status_migrated s ≡ true → IsMark (set_failure s text)
set_failure-IsMark s text h = record {
  id = λ r. refl;
  stays = λ r m. record {
    status = h;
    id = refl;
    source_id = refl;
    resource_type = refl;
    destination_id = refl;
    archived = refl;
    external = refl;
  };
}

pub set_source_removed-IsMark : IsMark set_source_removed
set_source_removed-IsMark = record {
  id = λ r. refl;
  stays = λ r m. record {
    status = m;
    id = refl;
    source_id = refl;
    resource_type = refl;
    destination_id = refl;
    archived = refl;
    external = refl;
  };
}

pub SameColumns-stays :
    (r s t : Migration) → StaysMigrated r s → SameColumns s t → StaysMigrated r t
SameColumns-stays r s t h c = record {
  status = subst (λ x. is_migrated x ≡ true) (sym c.status) h.status;
  id = c.id ∙ h.id;
  source_id = c.source_id ∙ h.source_id;
  resource_type = c.resource_type ∙ h.resource_type;
  destination_id = c.destination_id ∙ h.destination_id;
  archived = c.archived ∙ h.archived;
  external = c.external ∙ h.external;
}

pub IsComplete-stays : (r r' : Migration) → StaysMigrated r r' → IsComplete r → IsComplete r'
IsComplete-stays r r' h c = record {
  resource_type = rw h.resource_type c.resource_type;
  source_id = rw h.source_id c.source_id;
  destination_id = rw h.destination_id c.destination_id;
}

RowStep-stays : (r r' : Migration) → is_migrated r.status ≡ true → StaysMigrated r r' → RowStep r r'
RowStep-stays r r' m h = record { untouched = λ u. absurd (cc); migrated = λ _. h }

module _ {W : Type 0} (env : Env W) where
  -- The row after a marking, with the columns that the assignment left.
  pub record Marked (t i : String) (set : Setter) (a : Migration) (e : Db) : Type 0 where
    pub known : Known t i a e
    pub stored : find_row known.key e.rows ≡ some a
    pub before : Migration
    pub columns : SameColumns (set before) a

  -- Marking a known row keeps it known, and raises nothing.
  pub store-Known :
      (E : Error → Db → Type 0)
      → (t i : String) (d : Db) (set : Setter) (m : Migration) (s : State W) → IsMark set
      → Grows d s.db
      → Known t i m s.db
      → Ends d (Marked t i set) E (store env set m s)
  store-Known E t i d set m s mark g k =
      let r = k.row in
      let r' = updated env.backend s.db set r in
      let cols = updated-SameColumns env.backend s.db set r in
      let stays = SameColumns-stays r (set r) r' (mark.stays r k.migrated) cols in
      let complete = find-All RowSound k.key s.db.rows r g.0.complete k.found k.migrated in
      Ends-weaken d _ (Marked t i set) E E
        (λ a e g' q. record {
          known = record {
            key = k.key;
            row = a;
            id = rw q.0 (stays.id ∙ find-id k.key s.db.rows r k.found);
            found = q.1;
            migrated = rw q.0 stays.status;
            of = rw q.0 (IsOf-stays t i r r' stays k.of);
          };
          stored = q.1;
          before = r;
          columns = rw q.0 cols;
        })
        (λ c e g' q. q) _
        (store_stored env E d set m k.key r s mark.id k.id k.found g
          (λ _. IsComplete-stays r r' stays complete) (inr (RowStep-stays r r' k.migrated stays)))

-- Writing a row that is not migrated leaves the known objects known.
pub Known-update :
    (t i : String) (m : Migration) (d e : Db) (k : ℕ) (f : Setter) (r : Migration)
    → ((x : Migration) → (f x).id ≡ x.id)
    → find_row k d.rows ≡ some r
    → is_migrated r.status ≡ false
    → e.rows ≡ update_row k f d.rows
    → Known t i m d
    → Known t i m e
Known-update t i m d e k f r keeps found open_row same known =
    let other : known.key ≢ k = λ p.
      let at : find_row k d.rows ≡ some known.row = rw p at known.found in
      let one : r ≡ known.row = cc (at, found) in absurd (cc (one, open_row, known.migrated)) in
    record {
      key = known.key;
      row = known.row;
      id = known.id;
      found = rw same (find-update_ne known.key k f d.rows known.row keeps other known.found);
      migrated = known.migrated;
      of = known.of;
    }
