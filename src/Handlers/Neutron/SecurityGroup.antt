-- ===== src/Handlers/Neutron/SecurityGroup.antt =====
-- handlers/neutron/security_group.py: `SecurityGroupHandler`.
use sunbeam_migrate.Prelude.{String, Option, none, some, List, [], ◌∷◌, opt_eq, if◌then◌else◌}
use sunbeam_migrate.Config.{Config}
use sunbeam_migrate.Exec.{Exec, pure, lift, if_found, ◌>>=◌}
use sunbeam_migrate.Handlers.Interface.{Resource, MigratedResource, Handler, on_world}
use sunbeam_migrate.Handlers.Base.{report_identity_dependencies, get_identity_build_kwargs}
use sunbeam_migrate.Handlers.Sdk.{Object, end, not_none, copy_fields, update_kwargs, Clouds}
use sunbeam_migrate.Handlers.Common.{text_attribute, members_of, get_or_raise, source_resource_ids}

module _ {W : Type 0} (conf : Config) (clouds : Clouds W) where
  unfoldable pub security_group_dependencies : Object → List Resource
  unfolding report_identity_dependencies
  security_group_dependencies o =
      report_identity_dependencies conf [] (text_attribute o "project_id") none

  unfoldable pub security_group_associated : String → Exec W (List Resource)
  unfolding security_group_dependencies
  security_group_associated i = do
    o ← get_or_raise clouds.source "security-group" i
    pure (security_group_dependencies o)

  unfoldable pub security_group_members : String → Exec W (List Resource)
  security_group_members i = do
    o ← get_or_raise clouds.source "security-group" i
    rules ← clouds.source.list_all "security-group-rule" (("security_group_id", o.id) ∷ [])
    pure (members_of "security-group-rule" rules)

  -- `create_security_group`
  unfoldable pub create_security_group : Object → List (String × String) → Exec W String
  unfolding copy_fields update_kwargs
  create_security_group o identity = do
    created ← clouds.destination.create "security-group" (
        update_kwargs identity
          (copy_fields not_none ("description" ∷ "name" ∷ "stateful" ∷ []) o end))
    pure created.id

  -- A group named "default" that the destination has already is not created again.
  unfoldable pub reuse_default : Object → List (String × String) → Exec W (Option Object)
  reuse_default o identity =
      if opt_eq (text_attribute o "name") (some "default")
      then clouds.destination.find "security-group" "default" identity
      else pure none

  unfoldable pub security_group_perform : String → List MigratedResource → Exec W String
  unfolding get_identity_build_kwargs create_security_group reuse_default
  security_group_perform i deps = do
    o ← get_or_raise clouds.source "security-group" i
    identity ← lift (
        get_identity_build_kwargs conf "project_id" "user_id" deps (text_attribute o "project_id")
          none)
    existing ← reuse_default o identity
    if_found existing (λ found. pure found.id) (create_security_group o identity)

  unfoldable pub security_group_handler : Handler W
  unfolding security_group_associated security_group_members security_group_perform
  security_group_handler = record {
    service_type = "neutron";
    get_associated_resources = security_group_associated;
    get_member_resources = security_group_members;
    get_source_resource_ids = source_resource_ids clouds.source "security-group" "project_id";
    perform_individual_migration = λ self i deps. on_world (security_group_perform i deps);
    connect_member_resources_to_parent = λ parent members. pure tt;
    delete_source_resource = clouds.source.delete "security-group";
  }
