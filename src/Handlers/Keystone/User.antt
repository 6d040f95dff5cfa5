-- ===== src/Handlers/Keystone/User.antt =====
-- handlers/keystone/user.py: `UserHandler`.
use sunbeam_migrate.Prelude.{
  String, false, Option, none, some, set?, List, [], ◌∷◌, ◌++◌, if◌then◌else◌,
}
use sunbeam_migrate.Exec.{
  Exec, Result, ok, pure, lift, result_map, try_except, if_found, ◌>>=◌, ◌>>◌,
}
use sunbeam_migrate.Handlers.Interface.{Resource, MigratedResource, Handler, on_world}
use sunbeam_migrate.Handlers.Base.{
  dependency, text_of, reported, get_associated_resource_destination_id,
}
use sunbeam_migrate.Handlers.Sdk.{
  Object, Kwargs, text, bool, end, entry, truth, as_text, member, not_none_or_empty, attribute,
  entry_set, copy_fields, Clouds,
}
use sunbeam_migrate.Handlers.Common.{text_attribute, id_of, get_or_raise, source_resource_ids}
use sunbeam_migrate.Handlers.Keystone.Project.{ignore_not_found}

-- `assignment.role["id"]`
abbrev pub role_of : Object → String
role_of a = text_of (as_text (member "id" (attribute a "role")))

-- `assignment.scope[kind].get("id")`, where the scope has that kind.
abbrev pub scope_id : String → Object → Option String
scope_id kind a = as_text (member "id" (member kind (attribute a "scope")))

abbrev pub roles_of : List Object → List Resource
roles_of [] = []
roles_of (a ∷ as_) = dependency "role" (role_of a) ∷ roles_of as_

-- The dependencies of a user with these role assignments.
unfoldable pub user_dependencies : Object → List Object → List Resource
user_dependencies o assignments =
    dependency "domain" (text_of (text_attribute o "domain_id"))
      ∷ reported "project" (text_attribute o "default_project_id")
    ++ roles_of assignments

-- `_build_user_kwargs`
unfoldable pub build_user_kwargs : Object → String → List MigratedResource → Result Kwargs
unfolding copy_fields get_associated_resource_destination_id
build_user_kwargs o domain deps =
    let kwargs =
      entry_set "domain_id" (text domain)
        (copy_fields not_none_or_empty ("name" ∷ "description" ∷ "enabled" ∷ "email" ∷ []) o end) in
    let project = text_attribute o "default_project_id" in
    if set? project
    then result_map (λ p. entry_set "default_project_id" (text p) kwargs)
        (get_associated_resource_destination_id "project" (text_of project) deps)
    else ok kwargs

module _ {W : Type 0} (clouds : Clouds W) where
  unfoldable pub user_associated : String → Exec W (List Resource)
  unfolding user_dependencies
  user_associated i = do
    o ← get_or_raise clouds.source "user" i
    assignments ← clouds.source.list_all "role-assignment" (("user_id", o.id) ∷ [])
    pure (user_dependencies o assignments)

  -- `assign_project_role_to_user` and `assign_domain_role_to_user`
  unfoldable pub assign_scoped :
      String → String → String → List MigratedResource → String → String → Exec W (Unit {0})
  unfolding get_associated_resource_destination_id
  assign_scoped operation kind i deps user role = do
    scope ← lift (get_associated_resource_destination_id kind i deps)
    found ← clouds.destination.get kind scope
    clouds.destination.act operation (id_of found)
        (entry "user" (text user) (entry "role" (text role) end))
    pure tt

  -- One role assignment.
  unfoldable pub recreate_role_assignment :
      Object → String → List MigratedResource → Exec W (Unit {0})
  unfolding assign_scoped get_associated_resource_destination_id
  recreate_role_assignment a user deps = do
    role ← lift (get_associated_resource_destination_id "role" (role_of a) deps)
    found ← clouds.destination.get "role" role
    if set? (scope_id "project" a)
        then assign_scoped "assign_project_role_to_user" "project" (text_of (scope_id "project" a))
            deps user (id_of found)
        else if set? (scope_id "domain" a)
        then assign_scoped "assign_domain_role_to_user" "domain" (text_of (scope_id "domain" a))
            deps user (id_of found)
        else pure tt

  unfoldable pub recreate_each : List Object → String → List MigratedResource → Exec W (Unit {0})
  unfolding recreate_role_assignment
  recreate_each [] user deps = pure tt
  recreate_each (a ∷ more) user deps =
      let rest = recreate_each more user deps in recreate_role_assignment a user deps >> rest

  -- `_recreate_role_assignments`
  unfoldable pub recreate_role_assignments :
      Object → String → List MigratedResource → Exec W (Unit {0})
  unfolding recreate_each
  recreate_role_assignments o user deps = do
    assignments ← clouds.source.list_all "role-assignment" (("user_id", o.id) ∷ [])
    recreate_each assignments user deps

  -- A new user; an error with its roles is logged.
  unfoldable pub create_user : Object → String → List MigratedResource → Exec W String
  unfolding build_user_kwargs recreate_role_assignments
  create_user o domain deps = do
    kwargs ← lift (build_user_kwargs o domain deps)
    created ← clouds.destination.create "user" kwargs
    try_except (recreate_role_assignments o created.id deps) (λ e. pure tt)
    pure created.id

  unfoldable pub user_perform : String → List MigratedResource → Exec W String
  unfolding create_user get_associated_resource_destination_id
  user_perform i deps = do
    o ← get_or_raise clouds.source "user" i
    domain ← lift (
        get_associated_resource_destination_id "domain" (text_of (text_attribute o "domain_id"))
          deps)
    existing ←
        clouds.destination.find "user" (text_of (text_attribute o "name"))
          (("domain_id", domain) ∷ [])
    if_found existing (λ found. pure found.id) (create_user o domain deps)

  -- Users must be disabled before deletion.
  unfoldable pub disable_enabled_user : Option Object → Exec W (Unit {0})
  disable_enabled_user none = pure tt
  disable_enabled_user (some o) =
      if truth (attribute o "is_enabled")
      then clouds.source.update "user" o.id (entry "enabled" (bool false) end)
      else pure tt

  unfoldable pub disable_user : String → Exec W (Unit {0})
  unfolding disable_enabled_user
  disable_user i = do found ← clouds.source.get "user" i; disable_enabled_user found

  -- `_delete_resource` on the source cloud
  unfoldable pub delete_user : String → Exec W (Unit {0})
  unfolding disable_user
  delete_user i =
      try_except (disable_user i) (ignore_not_found clouds) >> clouds.source.delete "user" i

  unfoldable pub user_handler : Handler W
  unfolding user_associated user_perform delete_user
  user_handler = record {
    service_type = "keystone";
    get_associated_resources = user_associated;
    get_member_resources = λ i. pure [];
    get_source_resource_ids = source_resource_ids clouds.source "user" "domain_id";
    perform_individual_migration = λ self i deps. on_world (user_perform i deps);
    connect_member_resources_to_parent = λ parent members. pure tt;
    delete_source_resource = delete_user;
  }
