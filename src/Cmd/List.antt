-- ===== src/Cmd/List.antt =====
-- cmd/list.py and cmd/show.py: the migrations that are shown.
use sunbeam_migrate.Prelude.{
  String, Bool, true, false, not, ◌&&◌, Option, none, some, List, [], ◌∷◌, truthy, if◌then◌else◌,
}
use sunbeam_migrate.Exec.{Result, ok, err, click_exception}
use sunbeam_migrate.Db.Models.{Db, Backend, Migration}
use sunbeam_migrate.Db.Api.{Filters, no_filters, get_migrations}
use sunbeam_migrate.Cmd.Options.{Selection, selection_filters, flag}

-- `if source_removed: … elif exclude_source_removed: …`
abbrev pub removed_filter : Bool → Bool → Option Bool
removed_filter source_removed exclude_source_removed =
    if source_removed then some true else if exclude_source_removed then some false else none

unfoldable pub list_filters : Selection → Bool → Bool → Bool → Bool → Filters
unfolding selection_filters
list_filters o archived external source_removed exclude_source_removed =
    record (selection_filters o) {
      uuid = none;
      archived = flag archived;
      external = flag external;
      source_removed = removed_filter source_removed exclude_source_removed;
    }

-- Exactly one migration is wanted.
abbrev pub only_one : List Migration → Result Migration
only_one [] = err click_exception
only_one (m ∷ []) = ok m
only_one (m ∷ _ ∷ _) = err click_exception

module _ (b : Backend) where
  unfoldable pub list_migrations :
      Selection → Bool → Bool → Bool → Bool → Bool → Db → Result (List Migration)
  unfolding list_filters
  list_migrations o archived include_archived external source_removed exclude_source_removed db =
      if source_removed && exclude_source_removed
      then err click_exception
      else ok (
          get_migrations b false include_archived
            (list_filters o archived external source_removed exclude_source_removed) db)

  unfoldable pub show_migration : String → Db → Result Migration
  show_migration migration_id db =
      if not (truthy migration_id)
      then err click_exception
      else only_one
          (get_migrations b false true (record no_filters { uuid = some migration_id }) db)
