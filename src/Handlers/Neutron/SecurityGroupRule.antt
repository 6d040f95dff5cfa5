-- ===== src/Handlers/Neutron/SecurityGroupRule.antt =====
-- handlers/neutron/security_group_rule.py: `SecurityGroupRuleHandler`. The search for the rule's id
-- in the text of a conflict, a regular expression, is a parameter.
use sunbeam_migrate.Prelude.{String, Option, none, set?, List, [], ◌∷◌, ◌++◌, if◌then◌else◌}
use sunbeam_migrate.Config.{Config}
use sunbeam_migrate.Exec.{
  Error, sdk_conflict, Exec, Result, ok, pure, raise, lift, try_except, and_then, result_map, ◌>>=◌,
}
use sunbeam_migrate.Handlers.Interface.{Resource, MigratedResource, Handler, on_world}
use sunbeam_migrate.Handlers.Base.{
  dependency, text_of, reported, report_identity_dependencies, get_identity_build_kwargs,
  get_associated_resource_destination_id,
}
use sunbeam_migrate.Handlers.Sdk.{
  Object, Kwargs, text, end, entry, not_none, entry_set, copy_fields, update_kwargs, Clouds,
}
use sunbeam_migrate.Handlers.Common.{text_attribute, get_or_raise, source_resource_ids}

unfoldable pub rule_fields : List String
rule_fields =
    "description" ∷ "direction" ∷ "ether_type" ∷ "port_range_min" ∷ "port_range_max" ∷ "protocol"
    ∷ "remote_ip_prefix" ∷ []

module _ {W : Type 0} (conf : Config) (clouds : Clouds W) where
  unfoldable pub rule_dependencies : Object → List Resource
  unfolding report_identity_dependencies
  rule_dependencies o =
      report_identity_dependencies conf [] (text_attribute o "project_id") none
      ++ dependency "security-group" (text_of (text_attribute o "security_group_id"))
        ∷ reported "security-group" (text_attribute o "remote_group_id")

  -- `if source_sg_rule.remote_group_id: kwargs["remote_group_id"] = …`
  unfoldable pub with_remote_group : Object → List MigratedResource → Kwargs → Result Kwargs
  unfolding get_associated_resource_destination_id
  with_remote_group o deps kwargs =
      let remote = text_attribute o "remote_group_id" in
      if set? remote
      then result_map (λ g. entry_set "remote_group_id" (text g) kwargs)
          (get_associated_resource_destination_id "security-group" (text_of remote) deps)
      else ok kwargs

  -- The arguments of `create_security_group_rule`.
  unfoldable pub rule_kwargs : Object → List MigratedResource → Result Kwargs
  unfolding get_associated_resource_destination_id rule_fields copy_fields with_remote_group
      get_identity_build_kwargs update_kwargs
  rule_kwargs o deps =
      and_then
        (get_associated_resource_destination_id "security-group"
          (text_of (text_attribute o "security_group_id")) deps)
        λ group.
          and_then (with_remote_group o deps (copy_fields not_none rule_fields o end)) λ kwargs.
            result_map
              (λ identity. entry "security_group_id" (text group) (update_kwargs identity kwargs))
              (get_identity_build_kwargs conf "project_id" "user_id" deps
                (text_attribute o "project_id") none)

  unfoldable pub rule_associated : String → Exec W (List Resource)
  unfolding rule_dependencies
  rule_associated i = do
    o ← get_or_raise clouds.source "security-group-rule" i
    pure (rule_dependencies o)

  module _ (rule_id : String → Option String) where
    -- `except openstack_exc.ConflictException`: a rule that exists already is used.
    abbrev pub reuse_rule : Error → Exec W String
    reuse_rule (sdk_conflict details) =
        if set? (rule_id details)
        then pure (text_of (rule_id details))
        else raise (sdk_conflict details)
    reuse_rule e = raise e

    unfoldable pub create_rule : Kwargs → Exec W String
    create_rule kwargs =
        try_except
          (clouds.destination.create "security-group-rule" kwargs >>= λ created. pure created.id)
          reuse_rule

    unfoldable pub rule_perform : String → List MigratedResource → Exec W String
    unfolding rule_kwargs create_rule
    rule_perform i deps = do
      o ← get_or_raise clouds.source "security-group-rule" i
      kwargs ← lift (rule_kwargs o deps)
      create_rule kwargs

    unfoldable pub security_group_rule_handler : Handler W
    unfolding rule_associated rule_perform
    security_group_rule_handler = record {
      service_type = "neutron";
      get_associated_resources = rule_associated;
      get_member_resources = λ i. pure [];
      get_source_resource_ids =
          source_resource_ids clouds.source "security-group-rule" "project_id";
      perform_individual_migration = λ self i deps. on_world (rule_perform i deps);
      connect_member_resources_to_parent = λ parent members. pure tt;
      delete_source_resource = clouds.source.delete "security-group-rule";
    }
