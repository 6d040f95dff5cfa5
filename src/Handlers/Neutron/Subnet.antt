-- ===== src/Handlers/Neutron/Subnet.antt =====
-- handlers/neutron/subnet.py: `SubnetHandler`.
use sunbeam_migrate.Prelude.{String, none, List, [], ◌∷◌, ◌++◌}
use sunbeam_migrate.Config.{Config}
use sunbeam_migrate.Exec.{Exec, Result, pure, lift, and_then, result_map, ◌>>=◌}
use sunbeam_migrate.Handlers.Interface.{Resource, MigratedResource, Handler, on_world}
use sunbeam_migrate.Handlers.Base.{
  dependency, text_of, report_identity_dependencies, get_identity_build_kwargs,
  get_associated_resource_destination_id,
}
use sunbeam_migrate.Handlers.Sdk.{
  Object, Kwargs, text, end, not_none, entry_set, copy_fields, update_kwargs, Clouds,
}
use sunbeam_migrate.Handlers.Common.{text_attribute, get_or_raise, source_resource_ids}

unfoldable pub subnet_fields : List String
subnet_fields =
    "allocation_pools" ∷ "cidr" ∷ "description" ∷ "dns_nameservers" ∷ "dns_publish_fixed_ip"
    ∷ "is_dhcp_enabled" ∷ "gateway_ip" ∷ "host_routes" ∷ "ip_version" ∷ "ipv6_address_mode"
    ∷ "ipv6_ra_mode" ∷ "name" ∷ "prefix_length" ∷ "segment_id" ∷ "service_types"
    ∷ "use_default_subnet_pool" ∷ []

module _ {W : Type 0} (conf : Config) (clouds : Clouds W) where
  unfoldable pub subnet_dependencies : Object → List Resource
  unfolding report_identity_dependencies
  subnet_dependencies o =
      report_identity_dependencies conf [] (text_attribute o "project_id") none
      ++ dependency "network" (text_of (text_attribute o "network_id")) ∷ []

  -- The arguments of `create_subnet`, on the destination's network.
  unfoldable pub subnet_kwargs : Object → List MigratedResource → Result Kwargs
  unfolding get_associated_resource_destination_id subnet_fields copy_fields
      get_identity_build_kwargs update_kwargs
  subnet_kwargs o deps =
      and_then
        (get_associated_resource_destination_id "network" (text_of (text_attribute o "network_id"))
          deps)
        λ network.
          let kwargs =
            entry_set "network_id" (text network) (copy_fields not_none subnet_fields o end) in
          result_map (λ identity. update_kwargs identity kwargs)
            (get_identity_build_kwargs conf "project_id" "user_id" deps
              (text_attribute o "project_id") none)

  unfoldable pub subnet_associated : String → Exec W (List Resource)
  unfolding subnet_dependencies
  subnet_associated i = do o ← get_or_raise clouds.source "subnet" i; pure (subnet_dependencies o)

  unfoldable pub subnet_perform : String → List MigratedResource → Exec W String
  unfolding subnet_kwargs
  subnet_perform i deps = do
    o ← get_or_raise clouds.source "subnet" i
    kwargs ← lift (subnet_kwargs o deps)
    created ← clouds.destination.create "subnet" kwargs
    pure created.id

  unfoldable pub subnet_handler : Handler W
  unfolding subnet_associated subnet_perform
  subnet_handler = record {
    service_type = "neutron";
    get_associated_resources = subnet_associated;
    get_member_resources = λ i. pure [];
    get_source_resource_ids = source_resource_ids clouds.source "subnet" "project_id";
    perform_individual_migration = λ self i deps. on_world (subnet_perform i deps);
    connect_member_resources_to_parent = λ parent members. pure tt;
    delete_source_resource = clouds.source.delete "subnet";
  }
