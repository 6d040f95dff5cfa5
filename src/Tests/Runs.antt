-- ===== src/Tests/Runs.antt =====
-- Runs of the manager: a subnet with its network, a failure, a dry run, a second run.
use sunbeam_migrate.Prelude.{set?, ℕ, String, ◌≡◌, refl, true, false, some, List, [], ◌∷◌, All}
use sunbeam_migrate.Exec.{Result, ok, err, invalid_input}
use sunbeam_migrate.Db.Models.{find_row, Migration, save, empty_migration}
use sunbeam_migrate.Db.Api.{matches, get_migrations}
use sunbeam_migrate.Db.History.{Evolves}
use sunbeam_migrate.Db.History.Soundness.{IsSound}
use sunbeam_migrate.Handlers.Interface.{State, Request, Handler}
use sunbeam_migrate.Handlers.Base.{dependency}
use sunbeam_migrate.Handlers.Factory.{registry_get, migration_handlers, get_migration_handler}
use sunbeam_migrate.Handlers.Factory.Distinct.{get_migration_handler-injective}
use sunbeam_migrate.Handlers.Common.{get_or_raise, source_resource_ids}
use sunbeam_migrate.Handlers.Neutron.Subnet.{subnet_handler}
use sunbeam_migrate.Handlers.Neutron.Network.{network_handler}
use sunbeam_migrate.Manager.Cleanup.{store, cleanup_migration_source}
use sunbeam_migrate.Manager.Cleanup.Row.{Leaves, cleanup_migration_source-Leaves}
use sunbeam_migrate.Manager.Resolution.{Ran, transfer-Ran}
use sunbeam_migrate.Tests.Database.{newest_first, next}
use sunbeam_migrate.Manager.Lookup.{latest, only_migrated, classify, get_associated_resources}
use sunbeam_migrate.Manager.Lookup.Resolved.Partition.{
  classify-partition, migrated_entries, not_migrated,
}
use sunbeam_migrate.Manager.Batch.{completed_filters, perform_each, perform_batch_migration}
use sunbeam_migrate.Manager.Batch.Done.{HasDone, perform_batch_migration-HasDone}
use sunbeam_migrate.Manager.Parent.{migrate_parent_resource, new_migration, transfer}
use sunbeam_migrate.Manager.Perform.{perform_individual_migration}
use sunbeam_migrate.Manager.Contract.Transfer.{FailedRow}
use sunbeam_migrate.Manager.Contract.New.{failure_text}
use sunbeam_migrate.Manager.Outcome.{
  Migrated, perform-Migrated, perform-IsSound, perform-Evolves, migrate_parent_resource-FailedRow,
  perform-dry_run, perform-again,
}
use sunbeam_migrate.Tests.World.{env, env-IsEnv, start, queries-QueriesKeep}

start-IsSound : IsSound start.db.rows
start-IsSound = record { complete = tt; keys = tt }

-- The subnet "sub" with its dependencies.
abbrev subnet_request : Request
subnet_request = record {
  resource_type = "subnet";
  resource_id = "sub";
  cleanup_source = false;
  include_dependencies = true;
  include_members = false;
  dry_run = false;
}

abbrev value_of : Result Migration → Migration
value_of (ok m) = m
value_of (err e) = empty_migration

abbrev first_run : Result Migration × State ℕ
first_run = perform_individual_migration env 3 subnet_request start

first_run-ok : first_run.0 ≡ ok (value_of first_run.0)
unfolding perform_individual_migration get_migration_handler registry_get migration_handlers
    migrate_parent_resource latest get_migrations newest_first save get_associated_resources
    subnet_handler get_or_raise matches network_handler next
first_run-ok = refl

perform-Migrated_example : Migrated first_run.1.db.rows "subnet" "sub" (value_of first_run.0)
perform-Migrated_example =
    perform-Migrated env env-IsEnv 3 subnet_request start refl start-IsSound first_run-ok

-- The state after the first run, with a network and a subnet.
abbrev second : State ℕ
second = first_run.1

second-IsSound : IsSound second.db.rows
second-IsSound = perform-IsSound env env-IsEnv 3 subnet_request start start-IsSound

abbrev members_request : Request
members_request = record subnet_request {
  resource_type = "network";
  resource_id = "other";
  include_members = true;
  cleanup_source = true;
}

perform-IsSound_example :
    IsSound (perform_individual_migration env 4 members_request second).1.db.rows
perform-IsSound_example = perform-IsSound env env-IsEnv 4 members_request second second-IsSound

perform-Evolves_example :
    Evolves second.db.rows (perform_individual_migration env 4 members_request second).1.db.rows
perform-Evolves_example = perform-Evolves env env-IsEnv 4 members_request second second-IsSound

abbrev subnet : Handler ℕ
subnet = env.load "sunbeam_migrate.handlers.neutron.subnet.SubnetHandler"

abbrev network : Handler ℕ
network = env.load "sunbeam_migrate.handlers.neutron.network.NetworkHandler"

-- Without its network, the subnet is refused.
abbrev alone_request : Request
alone_request = record subnet_request { include_dependencies = false }

abbrev refused : Result (Migration × List Migration) × State ℕ
refused =
    migrate_parent_resource env (perform_individual_migration env 3) alone_request subnet start

refused-err : refused.0 ≡ err invalid_input
unfolding perform_individual_migration get_migration_handler registry_get migration_handlers
    migrate_parent_resource latest get_migrations newest_first save get_associated_resources
    subnet_handler get_or_raise matches network_handler next
refused-err = refl

migrate_parent_resource-FailedRow_example :
    FailedRow start.db "subnet" "sub" (failure_text env invalid_input) refused.1.db
migrate_parent_resource-FailedRow_example =
    migrate_parent_resource-FailedRow env env-IsEnv 3 subnet
      (env-IsEnv.handlers "sunbeam_migrate.handlers.neutron.subnet.SubnetHandler") alone_request
      start refl refl start-IsSound refused-err

found_again : only_migrated (latest env "subnet" "sub" second.db) ≡ some (value_of first_run.0)
unfolding perform_individual_migration get_migration_handler registry_get migration_handlers
    migrate_parent_resource latest get_migrations newest_first save get_associated_resources
    subnet_handler get_or_raise matches network_handler next
found_again = refl

perform-again_example :
    (perform_individual_migration env 3 subnet_request second).1.world ≡ second.world
perform-again_example = perform-again env 3 subnet_request second refl refl refl found_again

perform-dry_run_example :
    (perform_individual_migration env 3 (record subnet_request { dry_run = true }) start).1 ≡ start
perform-dry_run_example =
    perform-dry_run env 3 (record subnet_request { dry_run = true }) start refl
      (queries-QueriesKeep start)

-- A subnet in the course of its migration: its row has been inserted, and its network is pending.
abbrev made : Result Migration × State ℕ
made = store env (λ x. x) (new_migration env subnet subnet_request) start

made-IsSound : IsSound made.1.db.rows
unfolding save next new_migration subnet_handler
made-IsSound = record {
  complete = (λ migrated. absurd (cc migrated), tt);
  keys = ((1, refl, refl), tt);
}

abbrev transferred : Result (Migration × List Migration) × State ℕ
transferred =
    transfer env (perform_individual_migration env 3) subnet_request subnet (value_of made.0) made.1

subnet-found : get_migration_handler env.load (some "subnet") ≡ ok subnet
unfolding get_migration_handler registry_get migration_handlers
subnet-found = refl

abbrev pair_of : Result (Migration × List Migration) → Migration × List Migration
pair_of (ok p) = p
pair_of (err e) = (empty_migration, [])

transferred-ok : transferred.0 ≡ ok (pair_of transferred.0)
unfolding perform_individual_migration get_migration_handler registry_get migration_handlers
    migrate_parent_resource latest get_migrations newest_first save get_associated_resources
    subnet_handler get_or_raise matches network_handler next
transferred-ok = refl

transfer-Ran_example :
    (d : String) × ((pair_of transferred.0).0.destination_id ≡ some d)
    × Ran env env-IsEnv.backend subnet (perform_individual_migration env 3) subnet_request made.1 d
transfer-Ran_example =
    transfer-Ran env env-IsEnv 3 subnet_request subnet subnet-found (value_of made.0) made.1
      made-IsSound transferred-ok

abbrev volume_path : String
volume_path = "sunbeam_migrate.handlers.cinder.volume.VolumeHandler"

volume-found : get_migration_handler (λ path. path) (some "volume") ≡ ok volume_path
unfolding get_migration_handler registry_get migration_handlers
volume-found = refl

get_migration_handler-injective_example : (◌≡◌) {A = String} "volume" "volume"
get_migration_handler-injective_example =
    get_migration_handler-injective "volume" "volume" volume-found volume-found

-- The batch lists the subnet "sub".
abbrev batch : Result (Unit {0}) × State ℕ
batch = perform_batch_migration env 4 subnet_request [] start

batch-ok : batch.0 ≡ ok tt
unfolding perform_batch_migration perform_each completed_filters perform_individual_migration
    get_migration_handler registry_get migration_handlers migrate_parent_resource latest
    get_migrations newest_first save get_associated_resources subnet_handler get_or_raise matches
    network_handler next source_resource_ids
batch-ok = refl

perform_batch_migration-HasDone_example :
    (h : Handler ℕ) × (get_migration_handler env.load (some "subnet") ≡ ok h)
    × ((is : List String) × ((h.get_source_resource_ids [] start.world).0 ≡ ok is)
        × All (HasDone batch.1.db.rows) is)
perform_batch_migration-HasDone_example =
    perform_batch_migration-HasDone env env-IsEnv 4 subnet_request [] start refl start-IsSound
      batch-ok

abbrev migrated : Migration
migrated = value_of first_run.0

migrated-row : (migrated.id ≡ some 1) × (find_row 1 second.db.rows ≡ some migrated)
unfolding perform_individual_migration get_migration_handler registry_get migration_handlers
    migrate_parent_resource latest get_migrations newest_first save get_associated_resources
    subnet_handler get_or_raise matches network_handler next find_row
migrated-row = (refl, refl)

migrated-named : set? migrated.source_id ≡ true
unfolding perform_individual_migration get_migration_handler registry_get migration_handlers
    migrate_parent_resource latest get_migrations newest_first save get_associated_resources
    subnet_handler get_or_raise matches network_handler next
migrated-named = refl

cleanup_migration_source-Leaves_example :
    Leaves env 1 migrated (cleanup_migration_source env migrated second)
cleanup_migration_source-Leaves_example =
    cleanup_migration_source-Leaves env migrated 1 migrated second migrated-row.0 migrated-row.1
      migrated-named

classify-partition_example :
    classify env second.db (dependency "network" "net" ∷ dependency "network" "other" ∷ [])
    ≡ ok (record {
      migrated =
          migrated_entries env second.db
            (dependency "network" "net" ∷ dependency "network" "other" ∷ []);
      pending =
          not_migrated env second.db
            (dependency "network" "net" ∷ dependency "network" "other" ∷ []);
    })
classify-partition_example =
    classify-partition env second.db env-IsEnv.backend second-IsSound
      (dependency "network" "net" ∷ dependency "network" "other" ∷ [])
