-- ===== src/Cmd/Options.antt =====
-- The filters that the commands build from their options.
use sunbeam_migrate.Prelude.{
  String, Bool, true, false, ◌||◌, Option, none, some, set?, if◌then◌else◌,
}
use sunbeam_migrate.Db.Api.{Filters, no_filters}

-- `if x: filters[key] = x`
abbrev pub given : Option String → Option String
given x = if set? x then x else none

-- `if flag: filters[key] = True`
abbrev pub flag : Bool → Option Bool
flag b = if b then some true else none

abbrev pub is_given {ℓ} : {A : Type ℓ} → Option A → Bool
is_given none = false
is_given (some x) = true

-- The dictionary is not empty.
unfoldable pub has_filters : Filters → Bool
has_filters f =
    is_given f.uuid
    || is_given f.service
    || is_given f.resource_type
    || is_given f.source_id
    || is_given f.destination_id
    || is_given f.status
    || is_given f.archived
    || is_given f.external
    || is_given f.source_removed

-- The options that select migrations: --service, --resource-type, --id, --status, --source-id.
pub record Selection : Type 0 where
  pub service : Option String
  pub resource_type : Option String
  pub migration_uuid : Option String
  pub status : Option String
  pub source_id : Option String

unfoldable pub selection_filters : Selection → Filters
selection_filters o = record no_filters {
  service = given o.service;
  resource_type = given o.resource_type;
  uuid = given o.migration_uuid;
  status = given o.status;
  source_id = given o.source_id;
}
