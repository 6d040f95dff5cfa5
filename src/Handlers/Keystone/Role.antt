-- ===== src/Handlers/Keystone/Role.antt =====
-- handlers/keystone/role.py: `RoleHandler`.
use sunbeam_migrate.Prelude.{String, Option, none, some, set?, List, [], ◌∷◌, if◌then◌else◌}
use sunbeam_migrate.Exec.{Exec, Result, ok, pure, lift, result_map, if_found, ◌>>=◌}
use sunbeam_migrate.Handlers.Interface.{Resource, MigratedResource, Handler, on_world}
use sunbeam_migrate.Handlers.Base.{text_of, reported, get_associated_resource_destination_id}
use sunbeam_migrate.Handlers.Sdk.{
  Object, Kwargs, text, end, as_text, not_none_or_empty, entry_get, entry_set, copy_fields, Clouds,
}
use sunbeam_migrate.Handlers.Common.{text_attribute, get_or_raise, source_resource_ids}

-- Roles can be global: their domain is then not given.
unfoldable pub role_dependencies : Object → List Resource
role_dependencies o = reported "domain" (text_attribute o "domain_id")

-- `_build_role_kwargs`
unfoldable pub build_role_kwargs : Object → List MigratedResource → Result Kwargs
unfolding copy_fields get_associated_resource_destination_id
build_role_kwargs o deps =
    let kwargs = copy_fields not_none_or_empty ("name" ∷ "description" ∷ []) o end in
    let domain = text_attribute o "domain_id" in
    if set? domain
    then result_map (λ d. entry_set "domain_id" (text d) kwargs)
        (get_associated_resource_destination_id "domain" (text_of domain) deps)
    else ok kwargs

-- `if "domain_id" in role_kwargs: find_kwargs["domain_id"] = …`
abbrev pub find_kwargs : Option String → List (String × String)
find_kwargs none = []
find_kwargs (some d) = ("domain_id", d) ∷ []

module _ {W : Type 0} (clouds : Clouds W) where
  unfoldable pub role_associated : String → Exec W (List Resource)
  unfolding role_dependencies
  role_associated i = do o ← get_or_raise clouds.source "role" i; pure (role_dependencies o)

  unfoldable pub create_role : Kwargs → Exec W String
  create_role kwargs = do created ← clouds.destination.create "role" kwargs; pure created.id

  unfoldable pub role_perform : String → List MigratedResource → Exec W String
  unfolding build_role_kwargs entry_get create_role
  role_perform i deps = do
    o ← get_or_raise clouds.source "role" i
    kwargs ← lift (build_role_kwargs o deps)
    existing ←
        clouds.destination.find "role" (text_of (text_attribute o "name"))
          (find_kwargs (as_text (entry_get "domain_id" kwargs)))
    if_found existing (λ found. pure found.id) (create_role kwargs)

  unfoldable pub role_handler : Handler W
  unfolding role_associated role_perform
  role_handler = record {
    service_type = "keystone";
    get_associated_resources = role_associated;
    get_member_resources = λ i. pure [];
    get_source_resource_ids = source_resource_ids clouds.source "role" "domain_id";
    perform_individual_migration = λ self i deps. on_world (role_perform i deps);
    connect_member_resources_to_parent = λ parent members. pure tt;
    delete_source_resource = clouds.source.delete "role";
  }
