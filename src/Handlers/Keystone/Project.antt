-- ===== src/Handlers/Keystone/Project.antt =====
-- handlers/keystone/project.py: `ProjectHandler`.
use sunbeam_migrate.Prelude.{
  String, false, Option, none, some, List, [], ◌∷◌, opt_eq, if◌then◌else◌,
}
use sunbeam_migrate.Exec.{
  Error, Exec, sdk_not_found, pure, raise, lift, try_except, if_found, ◌>>=◌, ◌>>◌,
}
use sunbeam_migrate.Handlers.Interface.{Resource, MigratedResource, Handler, on_world}
use sunbeam_migrate.Handlers.Base.{dependency, text_of, get_associated_resource_destination_id}
use sunbeam_migrate.Handlers.Sdk.{
  Object, Kwargs, text, bool, end, entry, truth, not_none_or_empty, attribute, entry_set,
  copy_fields, Clouds,
}
use sunbeam_migrate.Handlers.Common.{text_attribute, get_or_raise, source_resource_ids}

-- The users of the domain whose default project is this one.
unfoldable pub project_users : String → List Object → List Resource
project_users project [] = []
project_users project (u ∷ us) =
    let rest = project_users project us in
    if opt_eq (text_attribute u "default_project_id") (some project)
    then dependency "user" u.id ∷ rest
    else rest

-- `_build_project_kwargs`
unfoldable pub build_project_kwargs : Object → String → Kwargs
unfolding copy_fields
build_project_kwargs o domain =
    entry_set "domain_id" (text domain)
      (copy_fields not_none_or_empty ("name" ∷ "description" ∷ "enabled" ∷ []) o end)

unfoldable pub project_dependencies : Object → List Resource
project_dependencies o = dependency "domain" (text_of (text_attribute o "domain_id")) ∷ []

module _ {W : Type 0} (clouds : Clouds W) where
  unfoldable pub project_associated : String → Exec W (List Resource)
  unfolding project_dependencies
  project_associated i = do
    o ← get_or_raise clouds.source "project" i
    pure (project_dependencies o)

  unfoldable pub project_members : String → Exec W (List Resource)
  unfolding project_users
  project_members i = do
    o ← get_or_raise clouds.source "project" i
    users ←
        clouds.source.list_all "user" (("domain_id", text_of (text_attribute o "domain_id")) ∷ [])
    pure (project_users o.id users)

  unfoldable pub create_project : Object → String → Exec W String
  unfolding build_project_kwargs
  create_project o domain = do
    created ← clouds.destination.create "project" (build_project_kwargs o domain)
    pure created.id

  unfoldable pub project_perform : String → List MigratedResource → Exec W String
  unfolding create_project get_associated_resource_destination_id
  project_perform i deps = do
    o ← get_or_raise clouds.source "project" i
    domain ← lift (
        get_associated_resource_destination_id "domain" (text_of (text_attribute o "domain_id"))
          deps)
    existing ←
        clouds.destination.find "project" (text_of (text_attribute o "name"))
          (("domain_id", domain) ∷ [])
    if_found existing (λ found. pure found.id) (create_project o domain)

  -- Projects must be disabled before deletion.
  unfoldable pub disable_enabled : String → Option Object → Exec W (Unit {0})
  disable_enabled i none = pure tt
  disable_enabled i (some o) =
      if truth (attribute o "is_enabled")
      then clouds.source.update "project" o.id (entry "enabled" (bool false) end)
      else pure tt

  unfoldable pub disable_project : String → Exec W (Unit {0})
  unfolding disable_enabled
  disable_project i = do found ← clouds.source.get "project" i; disable_enabled i found

  -- `except openstack_exc.NotFoundException: pass`
  abbrev pub ignore_not_found : Error → Exec W (Unit {0})
  ignore_not_found sdk_not_found = pure tt
  ignore_not_found e = raise e

  -- `_delete_resource` on the source cloud
  unfoldable pub delete_project : String → Exec W (Unit {0})
  unfolding disable_project
  delete_project i =
      try_except (disable_project i) ignore_not_found >> clouds.source.delete "project" i

  unfoldable pub project_handler : Handler W
  unfolding project_associated project_members project_perform delete_project
  project_handler = record {
    service_type = "keystone";
    get_associated_resources = project_associated;
    get_member_resources = project_members;
    get_source_resource_ids = source_resource_ids clouds.source "project" "domain_id";
    perform_individual_migration = λ self i deps. on_world (project_perform i deps);
    connect_member_resources_to_parent = λ parent members. pure tt;
    delete_source_resource = delete_project;
  }
