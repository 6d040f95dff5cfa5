-- ===== src/Handlers/Base.antt =====
-- handlers/base.py: the helpers of `BaseMigrationHandler`.
pub mod Covers
use sunbeam_migrate.Prelude.{
  String, Bool, false, ◌&&◌, ◌||◌, not, Option, none, some, List, [], ◌∷◌, ◌++◌, ◌==◌, set?,
  if◌then◌else◌,
}
use sunbeam_migrate.Config.{Config}
use sunbeam_migrate.Exec.{Result, ok, err, not_found, invalid_input}
use sunbeam_migrate.Handlers.Interface.{Resource, MigratedResource}

-- The resource is the one that is looked for.
abbrev pub is_resource : String → String → MigratedResource → Bool
is_resource resource_type source_id r = resource_type == r.resource_type && source_id == r.source_id

-- `_get_associated_resource_destination_id`
unfoldable pub get_associated_resource_destination_id :
    String → String → List MigratedResource → Result String
get_associated_resource_destination_id t i [] = err not_found
get_associated_resource_destination_id t i (r ∷ rs) =
    if is_resource t i r then ok r.destination_id else get_associated_resource_destination_id t i rs

-- A dependency that is not to be cleaned up.
abbrev pub dependency : String → String → Resource
dependency t i = record { resource_type = t; source_id = i; should_cleanup = false }

-- The value of an optional text that has been tested.
abbrev pub text_of : Option String → String
text_of none = ""
text_of (some s) = s

-- `if x: associated_resources.append(Resource(resource_type=t, source_id=x))`
abbrev pub reported : String → Option String → List Resource
reported t x = if set? x then dependency t (text_of x) ∷ [] else []

-- `_report_identity_dependencies`: the list with the identity resources appended.
unfoldable pub report_identity_dependencies :
    Config → List Resource → Option String → Option String → List Resource
report_identity_dependencies conf rs project_id user_id =
    if not conf.multitenant_mode
    then rs
    else (rs ++ reported "project" project_id) ++ reported "user" user_id

-- One entry of `_get_identity_build_kwargs`.
unfoldable pub identity_kwarg :
    String → String → Option String → List MigratedResource → Result (List (String × String))
identity_kwarg t key source_id deps =
    if set? source_id
    then elim (get_associated_resource_destination_id t (text_of source_id) deps) [
      | ok d ↦ ok ((key, d) ∷ [])
      | err e ↦ err e
    ]
    else ok []

-- `_get_identity_build_kwargs`, with the keys that its callers pass.
unfoldable pub get_identity_build_kwargs :
    Config
    → String
    → String
    → List MigratedResource
    → Option String
    → Option String
    → Result (List (String × String))
unfolding identity_kwarg
get_identity_build_kwargs conf project_key user_key deps project_id user_id =
    if not conf.multitenant_mode
    then ok []
    else elim (identity_kwarg "project" project_key project_id deps) [
      | err e ↦ err e
      | ok p ↦ elim (identity_kwarg "user" user_key user_id deps) [
        | err e ↦ err e
        | ok u ↦ ok (p ++ u)
      ]
    ]

abbrev pub contains : String → List String → Bool
contains k [] = false
contains k (x ∷ xs) = k == x || contains k xs

-- `_validate_resource_filters`, by the names of the filters that the handler supports.
unfoldable pub validate_resource_filters : List String → List (String × String) → Result (Unit {0})
validate_resource_filters supported [] = ok tt
validate_resource_filters supported ((k, v) ∷ filters) =
    if not (contains k supported)
    then err invalid_input
    else validate_resource_filters supported filters
