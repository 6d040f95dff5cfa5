-- ===== src/Handlers/Interface.antt =====
-- handlers/base.py: the resources that handlers report, and the abstract methods of
-- `BaseMigrationHandler`. The clouds are a state `W` of their own.
use sunbeam_migrate.Prelude.{String, ◌≡◌, Bool, true, Option, List, truthy}
use sunbeam_migrate.Exec.{Exec, ok}
use sunbeam_migrate.Db.Models.{Migration, Db}

pub record Resource : Type 0 where
  pub resource_type : String
  pub source_id : String
  pub should_cleanup : Bool

pub record MigratedResource : Type 0 where
  pub resource_type : String
  pub source_id : String
  pub should_cleanup : Bool
  pub destination_id : String

-- What the program changes: its database, and the clouds.
pub record State (W : Type 0) : Type 0 where
  pub db : Db
  pub world : W

-- The arguments of `SunbeamMigrationManager.perform_individual_migration`.
pub record Request : Type 0 where
  pub resource_type : String
  pub resource_id : String
  pub cleanup_source : Bool
  pub include_dependencies : Bool
  pub include_members : Bool
  pub dry_run : Bool

-- A migration manager, as a handler sees it through `set_manager`.
abbrev pub Perform : Type 0 → Type 0
Perform W = Request → Exec (State W) Migration

-- Queries see the clouds alone; only `perform_individual_migration` may call the manager.
pub record Handler (W : Type 0) : Type 0 where
  pub service_type : String
  pub get_associated_resources : String → Exec W (List Resource)
  pub get_member_resources : String → Exec W (List Resource)
  pub get_source_resource_ids : List (String × String) → Exec W (List String)
  pub perform_individual_migration :
      Perform W → String → List MigratedResource → Exec (State W) String
  pub connect_member_resources_to_parent : Option String → List MigratedResource → Exec W (Unit {0})
  pub delete_source_resource : String → Exec W (Unit {0})

-- What the manager relies on: a handler returns the resulting resource's id, and reaches the
-- database through the manager alone.
pub record IsHandler {W : Type 0} (h : Handler W) : Type 1 where
  pub returns_id :
      (self : Perform W) (i : String) (deps : List MigratedResource) (s : State W) {d : String}
      → (h.perform_individual_migration self i deps s).0 ≡ ok d
      → truthy d ≡ true
  pub database_through_manager :
      (R : Db → Db → Type 0)
      → ((d : Db) → R d d)
      → ((d e f : Db) → R d e → R e f → R d f)
      → (self : Perform W) → ((q : Request) (s : State W) → R s.db (self q s).1.db)
      → (i : String) (deps : List MigratedResource) (s : State W)
      → R s.db (h.perform_individual_migration self i deps s).1.db

module _ {W A : Type 0} where
  -- An action on one part of the state.
  abbrev pub on_db : Exec Db A → Exec (State W) A
  on_db m s = let (r, d) = m s.db in (r, record s { db = d })

  abbrev pub on_world : Exec W A → Exec (State W) A
  on_world m s = let (r, w) = m s.world in (r, record s { world = w })
