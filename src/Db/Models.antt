-- ===== src/Db/Models.antt =====
-- db/models.py: a row of the table, and `save`. What the database and the operating system choose
-- (keys, times, uuids, the order of rows) is a parameter.
use sunbeam_migrate.Prelude.{
  ℕ, suc, String, ◌≡◌, Bool, true, false, Option, none, some, List, [], ◌∷◌, ◌++◌, nat_eq, set?,
  if◌then◌else◌, All,
}
use sunbeam_migrate.Constants.{Status}
use sunbeam_migrate.Exec.{Exec, Result, ok, err, database_error}

-- `BaseModel` and `Migration`. The columns that `save` fills are `none` until then.
pub record Migration : Type 0 where
  pub id : Option ℕ
  pub uuid : Option String
  pub archived : Bool
  pub created_at : Option ℕ
  pub updated_at : Option ℕ
  pub service : Option String
  pub resource_type : Option String
  pub source_cloud : Option String
  pub destination_cloud : Option String
  pub source_id : Option String
  pub destination_id : Option String
  pub source_removed : Bool
  pub external : Bool
  pub status : Option Status
  pub error_message : Option String

-- `models.Migration()`
abbrev pub empty_migration : Migration
empty_migration = record {
  id = none;
  uuid = none;
  archived = false;
  created_at = none;
  updated_at = none;
  service = none;
  resource_type = none;
  source_cloud = none;
  destination_cloud = none;
  source_id = none;
  destination_id = none;
  source_removed = false;
  external = false;
  status = none;
  error_message = none;
}

pub record Db : Type 0 where
  pub rows : List Migration
  -- how often the clock and the source of uuids have been read
  pub readings : ℕ

-- The database, the clock and `uuid4`.
pub record Backend : Type 0 where
  -- the primary key given to the next row
  pub next_id : List Migration → ℕ
  -- `datetime.now()` and `uuid4()` at the n-th reading
  pub now : ℕ → ℕ
  pub uuid4 : ℕ → String
  -- `ORDER BY created_at`, ascending or not
  pub order_by : Bool → List Migration → List Migration

-- The row has this primary key.
abbrev pub has_id : ℕ → Migration → Bool
has_id i r = elim r.id [ none ↦ false | some j ↦ nat_eq j i ]

abbrev pub time_of : Option ℕ → ℕ
time_of none = 0
time_of (some t) = t

-- The row with this primary key.
unfoldable pub find_row : ℕ → List Migration → Option Migration
find_row i [] = none
find_row i (r ∷ rows) = if has_id i r then some r else find_row i rows

-- `UPDATE … WHERE id = i`
unfoldable pub update_row : ℕ → (Migration → Migration) → List Migration → List Migration
update_row i f [] = []
update_row i f (r ∷ rows) = if has_id i r then f r ∷ rows else r ∷ update_row i f rows

-- What the code relies on: primary keys are fresh, uuids are not empty, and `ORDER BY` returns the
-- same rows.
pub record IsBackend (b : Backend) : Type 1 where
  pub fresh : (rows : List Migration) → find_row (b.next_id rows) rows ≡ none
  pub uuid_set : (k : ℕ) → set? (some (b.uuid4 k)) ≡ true
  pub order_all :
      (asc : Bool) (P : Migration → Type 0) (rows : List Migration)
      → All P rows
      → All P (b.order_by asc rows)
  pub order_any : (asc : Bool) (rows : List Migration) → b.order_by asc rows ≡ [] → rows ≡ []

module _ (b : Backend) where
  -- `if not self.uuid: self.uuid = str(uuid.uuid4())`
  abbrev pub with_uuid : ℕ → Migration → Migration
  with_uuid k m = if set? m.uuid then m else record m { uuid = some (b.uuid4 k) }

  -- The `INSERT` of a new object.
  abbrev pub inserted : Db → Migration → Migration
  inserted db m = record (with_uuid db.readings m) {
    id = some (b.next_id db.rows);
    created_at = some (b.now db.readings);
  }

  -- The `UPDATE` of a stored row by the attributes that were assigned.
  abbrev pub updated : Db → (Migration → Migration) → Migration → Migration
  updated db set r = record (with_uuid db.readings (set r)) {
    updated_at = some (b.now db.readings);
  }

  abbrev pub refreshed : Option Migration → Result Migration
  refreshed none = err database_error
  refreshed (some r) = ok r

  -- `save` of a new object.
  unfoldable pub insert : Migration → Exec Db Migration
  insert m db =
      let r = inserted db m in
      (ok r, record { rows = db.rows ++ r ∷ []; readings = suc db.readings })

  -- `save` of a stored object, and the object as `refresh` reads it back. A row that is gone is
  -- an error of the database.
  unfoldable pub update : (Migration → Migration) → ℕ → Exec Db Migration
  unfolding find_row update_row
  update set i db =
      let rows = update_row i (updated db set) db.rows in
      (refreshed (find_row i rows), record { rows = rows; readings = suc db.readings })

  -- The assignments `set` to the object's attributes, then `save`. Only the attributes that were
  -- assigned are written.
  unfoldable pub save : (Migration → Migration) → Migration → Exec Db Migration
  unfolding insert update
  save set m = elim m.id [ none ↦ insert (set m) | some i ↦ update set i ]
