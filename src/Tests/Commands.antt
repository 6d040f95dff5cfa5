-- ===== src/Tests/Commands.antt =====
-- The queries, the commands and the handlers at concrete tables and resources.
use Prim.Native.String.{◌++◌ as str_append}
use sunbeam_migrate.Prelude.{
  arith, ℕ, String, ◌≡◌, refl, true, false, none, some, List, [], ◌∷◌, All, map, set?,
}
use sunbeam_migrate.Constants.{Status}
use sunbeam_migrate.Config.{Config}
use sunbeam_migrate.Exec.{ok, IsOk}
use sunbeam_migrate.Db.Models.{Migration, Db, empty_migration, find_row}
use sunbeam_migrate.Db.Api.{
  Filters, no_filters, matches, archived_filter, get_migrations, delete_migrations,
  restore_migrations,
}
use sunbeam_migrate.Db.Api.Archive.{
  delete_migrations-hard, delete_migrations-soft, restore_migrations-delete_migrations,
  without_time,
}
use sunbeam_migrate.Db.History.{Evolves}
use sunbeam_migrate.Db.History.Soundness.{IsSound}
use sunbeam_migrate.Handlers.Interface.{State, MigratedResource}
use sunbeam_migrate.Handlers.Base.{get_associated_resource_destination_id}
use sunbeam_migrate.Handlers.Base.Covers.{Covers}
use sunbeam_migrate.Handlers.Sdk.{
  truth, attribute, as_text, member, Object, text, dict, list, nil, cons, end, entry, entry_get,
}
use sunbeam_migrate.Handlers.Neutron.Subnet.{subnet_dependencies, subnet_kwargs}
use sunbeam_migrate.Handlers.Neutron.Router.{router_dependencies, router_kwargs}
use sunbeam_migrate.Handlers.Neutron.Complete.{subnet_kwargs-IsOk, router_kwargs-IsOk}
use sunbeam_migrate.Cmd.Options.{Selection}
use sunbeam_migrate.Cmd.List.{list_migrations, show_migration}
use sunbeam_migrate.Cmd.Shown.{list_migrations-archived, show_migration-uuid}
use sunbeam_migrate.Cmd.CleanupSource.{cleanup_migration_sources}
use sunbeam_migrate.Cmd.RegisterExternal.{register_external}
use sunbeam_migrate.Cmd.Safety.{cleanup_migration_sources-Grows, register_external-Grows}
use sunbeam_migrate.Cmd.Start.{split_colon}
use sunbeam_migrate.Cmd.Colon.{NoColon, split_colon-join}
use sunbeam_migrate.Tests.Database.{backend, backend-IsBackend, newest_first}
use sunbeam_migrate.Tests.World.{env, conf, clouds}

abbrev volume : Migration
volume = record empty_migration {
  id = some 1;
  uuid = some "a1";
  created_at = some 3;
  service = some "cinder";
  resource_type = some "volume";
  source_id = some "v1";
  destination_id = some "w1";
  status = some Status.completed;
}

abbrev image : Migration
image = record empty_migration {
  id = some 2;
  uuid = some "b2";
  created_at = some 5;
  service = some "glance";
  resource_type = some "image";
  source_id = some "i1";
  status = some Status.failed;
}

abbrev table : Db
table = record { rows = volume ∷ image ∷ []; readings = 7 }

table-IsSound : IsSound table.rows
unfolding find_row
table-IsSound = record {
  complete = (
    λ _. record { resource_type = refl; source_id = refl; destination_id = refl },
    (λ migrated. absurd (cc migrated), tt),
  );
  keys = ((1, refl, refl), ((2, refl, refl), tt));
}

abbrev volumes : Filters
volumes = record no_filters { resource_type = some "volume" }

-- One archived row, and one that is not.
abbrev old_table : Db
old_table = record { rows = record volume { archived = true } ∷ image ∷ []; readings = 7 }

-- The archived rows are deleted, and a query for the others finds what it found before.
abbrev old : Filters
old = record no_filters { archived = some true }

others-apart :
    (r : Migration) → matches (archived_filter false no_filters) r ≡ true → matches old r ≡ false
unfolding matches archived_filter
others-apart r visible = ground arith

delete_migrations-hard_example :
    (get_migrations backend false true old (delete_migrations backend false old old_table).1 ≡ [])
    × (get_migrations backend false false no_filters
          (delete_migrations backend false old old_table).1
        ≡ get_migrations backend false false no_filters old_table)
delete_migrations-hard_example =
    delete_migrations-hard backend backend-IsBackend old no_filters false old_table false
      others-apart

delete_migrations-soft_example :
    get_migrations backend false false volumes (delete_migrations backend true volumes table).1 ≡ []
delete_migrations-soft_example =
    delete_migrations-soft backend backend-IsBackend volumes table false refl

restore_migrations-delete_migrations_example :
    map without_time
      (restore_migrations backend volumes (delete_migrations backend true volumes table).1).1.rows
    ≡ map without_time table.rows
restore_migrations-delete_migrations_example =
    restore_migrations-delete_migrations backend volumes table refl (refl, (refl, tt))

abbrev everything : Selection
everything = record {
  service = none;
  resource_type = none;
  migration_uuid = none;
  status = none;
  source_id = none;
}

old_table-listed :
    list_migrations backend everything true false false false false old_table ≡ ok (image ∷ [])
unfolding list_migrations get_migrations matches newest_first
old_table-listed = refl

list_migrations-archived_example :
    All (λ r. r.archived ≡ false) (image ∷ [])
    × (list_migrations backend everything false false false false false old_table ≡ ok (image ∷ []))
list_migrations-archived_example =
    list_migrations-archived backend backend-IsBackend everything true false false false old_table
      old_table-listed

table-shown : show_migration backend "a1" table ≡ ok volume
unfolding show_migration get_migrations matches newest_first
table-shown = refl

show_migration-uuid_example : (volume.archived ≡ false) × (volume.uuid ≡ some "a1")
show_migration-uuid_example =
    show_migration-uuid backend backend-IsBackend "a1" table (λ r. r.archived ≡ false)
      (refl, (refl, tt)) table-shown

abbrev state : State ℕ
state = record { db = table; world = 0 }

cleanup_migration_sources-Grows_example :
    let s' = (cleanup_migration_sources env none (some "volume") none false false state).1 in
    IsSound s'.db.rows × Evolves table.rows s'.db.rows
cleanup_migration_sources-Grows_example =
    cleanup_migration_sources-Grows env backend-IsBackend none (some "volume") none false false
      state table-IsSound

register_external-Grows_example :
    let s' = (register_external env (some "network") "n1" "m1" state).1 in
    IsSound s'.db.rows × Evolves table.rows s'.db.rows
register_external-Grows_example =
    register_external-Grows env backend-IsBackend (some "network") "n1" "m1" state table-IsSound

owner-NoColon : NoColon "owner-id"
unfolding NoColon
owner-NoColon = (refl, (refl, (refl, (refl, (refl, (refl, (refl, (refl, tt))))))))

split_colon-join_example :
    split_colon (str_append "owner-id" (str_append ":" "a:b")) ≡ some ("owner-id", "a:b")
split_colon-join_example = split_colon-join "owner-id" "a:b" owner-NoColon

-- A router whose gateway has an address on a subnet, in a project.
abbrev router : Object
router = record {
  id = "r1";
  attributes = entry "project_id" (text "p1") (
      entry "network_id" (text "n1") (
        entry "external_gateway_info"
          (dict (
            entry "network_id" (text "n1") (
              entry "external_fixed_ips"
                (list (
                  cons
                    (dict
                      (entry "subnet_id" (text "s1") (entry "ip_address" (text "10.0.0.2") end)))
                    nil))
                end)))
          end));
}

abbrev owned : Config
owned = record conf { multitenant_mode = true }

abbrev entry_for : String → String → String → MigratedResource
entry_for t i d = record {
  resource_type = t;
  source_id = i;
  should_cleanup = false;
  destination_id = d;
}

abbrev deps : List MigratedResource
deps =
    entry_for "project" "p1" "p2"
    ∷ entry_for "network" "n1" "n2"
    ∷ entry_for "subnet" "s1" "s2"
    ∷ []

router-Covers : Covers deps (router_dependencies owned clouds router)
unfolding get_associated_resource_destination_id router_dependencies entry_get
router-Covers = (("p2", refl), (("n2", refl), (("s2", refl), tt)))

router-named :
    truth (attribute router "external_gateway_info") ≡ true
    → set? (as_text (member "network_id" (attribute router "external_gateway_info"))) ≡ true
unfolding entry_get
router-named present = refl

router_kwargs-IsOk_example : IsOk (router_kwargs owned clouds router deps)
router_kwargs-IsOk_example = router_kwargs-IsOk owned clouds router deps router-named router-Covers

subnet-Covers : Covers deps (subnet_dependencies owned clouds router)
unfolding get_associated_resource_destination_id subnet_dependencies entry_get
subnet-Covers = (("p2", refl), (("n2", refl), tt))

subnet_kwargs-IsOk_example : IsOk (subnet_kwargs owned clouds router deps)
subnet_kwargs-IsOk_example = subnet_kwargs-IsOk owned clouds router deps subnet-Covers
