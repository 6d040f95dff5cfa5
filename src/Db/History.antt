-- ===== src/Db/History.antt =====
-- How the table changes while migrations run: rows are never removed, a row that is not in a
-- migrated status is not written by anyone but the call that made it, and a migrated row stays
-- migrated, for the same resource and with the same destination.
pub mod Rows
pub mod Soundness
use sunbeam_migrate.Prelude.{
  ℕ, ◌≡◌, refl, ◌∙◌, Bool, true, false, Option, none, some, List, [], ◌∷◌, set?,
}
use sunbeam_migrate.Constants.{is_migrated}
use sunbeam_migrate.Db.Models.{Migration, find_row}

-- `r'` is a later version of the migrated row `r`.
pub record StaysMigrated (r r' : Migration) : Type 0 where
  pub status : is_migrated r'.status ≡ true
  pub id : r'.id ≡ r.id
  pub source_id : r'.source_id ≡ r.source_id
  pub resource_type : r'.resource_type ≡ r.resource_type
  pub destination_id : r'.destination_id ≡ r.destination_id
  pub archived : r'.archived ≡ r.archived
  pub external : r'.external ≡ r.external

pub record RowStep (r r' : Migration) : Type 0 where
  pub untouched : is_migrated r.status ≡ false → r' ≡ r
  pub migrated : is_migrated r.status ≡ true → StaysMigrated r r'

-- Row by row, with new rows at the end.
abbrev pub Evolves : List Migration → List Migration → Type 0
Evolves [] rows' = Unit
Evolves (r ∷ rows) [] = ⊥
Evolves (r ∷ rows) (r' ∷ rows') = RowStep r r' × Evolves rows rows'

-- A migrated row names its resource and the resource on the destination.
pub record IsComplete (r : Migration) : Type 0 where
  pub resource_type : set? r.resource_type ≡ true
  pub source_id : set? r.source_id ≡ true
  pub destination_id : set? r.destination_id ≡ true

abbrev pub RowSound : Migration → Type 0
RowSound r = is_migrated r.status ≡ true → IsComplete r

-- Every row has a primary key of its own.
abbrev pub HasKeys : List Migration → Type 0
HasKeys [] = Unit
HasKeys (r ∷ rows) = ((i : ℕ) × (r.id ≡ some i) × (find_row i rows ≡ none)) × HasKeys rows
