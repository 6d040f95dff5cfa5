-- ===== src/Db/Api.antt =====
-- db/api.py: `get_migrations`, `delete_migrations` and `restore_migrations`.
pub mod Visible
pub mod Archive
use mathlib.Core.Bool.{◌&&◌}
use sunbeam_migrate.Prelude.{
  ℕ, suc, String, Bool, true, false, Option, none, some, List, [], ◌∷◌, opt_eq, bool_eq,
  if◌then◌else◌, keep,
}
use sunbeam_migrate.Constants.{Status, status_text}
use sunbeam_migrate.Exec.{Exec, ok}
use sunbeam_migrate.Db.Models.{Migration, Db, Backend}

-- The keyword arguments `**filters`, one for each column that a caller filters by.
pub record Filters : Type 0 where
  pub uuid : Option String
  pub service : Option String
  pub resource_type : Option String
  pub source_id : Option String
  pub destination_id : Option String
  pub status : Option String
  pub archived : Option Bool
  pub external : Option Bool
  pub source_removed : Option Bool

abbrev pub no_filters : Filters
no_filters = record {
  uuid = none;
  service = none;
  resource_type = none;
  source_id = none;
  destination_id = none;
  status = none;
  archived = none;
  external = none;
  source_removed = none;
}

abbrev pub text_matches : Option String → Option String → Bool
text_matches none column = true
text_matches (some v) column = opt_eq column (some v)

abbrev pub bool_matches : Option Bool → Bool → Bool
bool_matches none column = true
bool_matches (some v) column = bool_eq column v

abbrev pub stored_status : Option Status → Option String
stored_status none = none
stored_status (some s) = some (status_text s)

-- `filter_by(**filters)`: every filter holds.
unfoldable pub matches : Filters → Migration → Bool
matches f r =
    text_matches f.uuid r.uuid
    && text_matches f.service r.service
    && text_matches f.resource_type r.resource_type
    && text_matches f.source_id r.source_id
    && text_matches f.destination_id r.destination_id
    && text_matches f.status (stored_status r.status)
    && bool_matches f.archived r.archived
    && bool_matches f.external r.external
    && bool_matches f.source_removed r.source_removed

-- `if not include_archived: filters["archived"] = False`
unfoldable pub archived_filter : Bool → Filters → Filters
archived_filter include_archived f =
    if include_archived then f else record f { archived = some false }

module _ (b : Backend) where
  -- `get_migrations(order_by="created_at", …)`; no caller asks for another column.
  unfoldable pub get_migrations : Bool → Bool → Filters → Db → List Migration
  unfolding archived_filter
  get_migrations ascending include_archived f db =
      b.order_by ascending (keep (matches (archived_filter include_archived f)) db.rows)

-- `UPDATE … SET archived = a, updated_at = now WHERE filters`
unfoldable pub set_archived : Bool → ℕ → Filters → List Migration → List Migration
set_archived a now f [] = []
set_archived a now f (r ∷ rows) =
    (if matches f r then record r { archived = a; updated_at = some now } else r)
    ∷ set_archived a now f rows

-- `DELETE … WHERE filters`
unfoldable pub delete_rows : Filters → List Migration → List Migration
delete_rows f [] = []
delete_rows f (r ∷ rows) = let rest = delete_rows f rows in if matches f r then rest else r ∷ rest

module _ (b : Backend) where
  unfoldable pub delete_migrations : Bool → Filters → Exec Db (Unit {0})
  unfolding set_archived delete_rows
  delete_migrations soft_delete f db = (
    ok tt,
    if soft_delete
        then record {
          rows = set_archived true (b.now db.readings) f db.rows;
          readings = suc db.readings;
        }
        else record db { rows = delete_rows f db.rows },
  )

  unfoldable pub restore_migrations : Filters → Exec Db (Unit {0})
  unfolding set_archived
  restore_migrations f db = (
    ok tt,
    record {
      rows = set_archived false (b.now db.readings) (record f { archived = some true }) db.rows;
      readings = suc db.readings;
    },
  )
