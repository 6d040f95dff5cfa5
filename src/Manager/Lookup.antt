-- ===== src/Manager/Lookup.antt =====
-- manager.py: the queries of the manager, `_get_migrated_resource` and `_get_associated_resources`.
pub mod Latest
pub mod Resolved
use sunbeam_migrate.Prelude.{
  String, Bool, false, ◌||◌, not, Option, none, some, List, [], ◌∷◌, set?, if◌then◌else◌,
}
use sunbeam_migrate.Constants.{is_migrated, is_in_progress}
use sunbeam_migrate.Exec.{
  Result, ok, err, Exec, invalid_input, lift, gets, and_then, result_map, ◌>>=◌,
}
use sunbeam_migrate.Db.Models.{Migration, Db}
use sunbeam_migrate.Db.Api.{Filters, no_filters, get_migrations}
use sunbeam_migrate.Handlers.Interface.{Resource, MigratedResource, State, Handler, on_world}
use sunbeam_migrate.Handlers.Base.{text_of}
use sunbeam_migrate.Handlers.Factory.{get_migration_handler}
use sunbeam_migrate.Manager.Env.{Env}

-- `get_migrations(source_id=…, resource_type=…)`
abbrev pub resource_filters : String → String → Filters
resource_filters t i = record no_filters { resource_type = some t; source_id = some i }

abbrev pub first {ℓ} : {A : Type ℓ} → List A → Option A
first [] = none
first (x ∷ xs) = some x

-- The object is there and its status is in `LIST_STATUS_MIGRATED`.
abbrev pub only_migrated : Option Migration → Option Migration
only_migrated none = none
only_migrated (some m) = if is_migrated m.status then some m else none

-- Already migrated, or being migrated.
abbrev pub settled : Option Migration → Bool
settled none = false
settled (some m) = is_migrated m.status || is_in_progress m.status

-- The two lists of `_get_associated_resources`.
pub record Associated : Type 0 where
  pub migrated : List MigratedResource
  pub pending : List Resource

abbrev pub none_associated : Associated
none_associated = record { migrated = []; pending = [] }

abbrev pub add_pending : Resource → Associated → Associated
add_pending r a = record a { pending = r ∷ a.pending }

abbrev pub add_migrated : MigratedResource → Associated → Associated
add_migrated d a = record a { migrated = d ∷ a.migrated }

-- `_get_migrated_resource`
unfoldable pub get_migrated_resource : Migration → Result MigratedResource
get_migrated_resource m =
    if not (set? m.resource_type)
    then err invalid_input
    else if not (set? m.source_id)
    then err invalid_input
    else if not (set? m.destination_id)
    then err invalid_input
    else ok (record {
      resource_type = text_of m.resource_type;
      source_id = text_of m.source_id;
      should_cleanup = false;
      destination_id = text_of m.destination_id;
    })

module _ {W : Type 0} (env : Env W) where
  -- `_get_migration_handler`
  unfoldable pub get_handler : Option String → Exec (State W) (Handler W)
  get_handler t = lift (get_migration_handler env.load t)

  -- `existing[0]` of the migrations of a resource, the latest one.
  unfoldable pub latest : String → String → Db → Option Migration
  latest t i db = first (get_migrations env.backend false false (resource_filters t i) db)

  -- The loop of `_get_associated_resources`.
  unfoldable pub classify : Db → List Resource → Result Associated
  classify db [] = ok none_associated
  classify db (r ∷ rs) =
      let rest = classify db rs in
      elim (only_migrated (latest r.resource_type r.source_id db)) [
        | none ↦ result_map (add_pending r) rest
        | some m ↦ and_then (get_migrated_resource m) (λ d. result_map (add_migrated d) rest)
      ]

  -- `_get_associated_resources`
  unfoldable pub get_associated_resources : String → String → Exec (State W) Associated
  unfolding get_handler classify
  get_associated_resources t i = do
    h ← get_handler (some t)
    rs ← on_world (h.get_associated_resources i)
    db ← gets (λ s. s.db)
    lift (classify db rs)
