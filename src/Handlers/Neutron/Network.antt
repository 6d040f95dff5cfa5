-- ===== src/Handlers/Neutron/Network.antt =====
-- handlers/neutron/network.py: `NetworkHandler`.
use sunbeam_migrate.Prelude.{String, none, List, [], ◌∷◌, ◌++◌, if◌then◌else◌}
use sunbeam_migrate.Config.{Config}
use sunbeam_migrate.Exec.{Exec, Result, pure, lift, result_map, ◌>>=◌}
use sunbeam_migrate.Handlers.Interface.{Resource, MigratedResource, Handler, on_world}
use sunbeam_migrate.Handlers.Base.{report_identity_dependencies, get_identity_build_kwargs}
use sunbeam_migrate.Handlers.Sdk.{Object, Kwargs, end, truth, copy_fields, update_kwargs, Clouds}
use sunbeam_migrate.Handlers.Common.{text_attribute, members_of, get_or_raise, source_resource_ids}

module _ {W : Type 0} (conf : Config) (clouds : Clouds W) where
  -- The attributes that are copied.
  unfoldable pub network_fields : List String
  network_fields =
      ("description" ∷ "dns_domain" ∷ "is_admin_state_up" ∷ "is_default"
        ∷ "is_port_security_enabled" ∷ "is_router_external" ∷ "is_shared" ∷ "mtu" ∷ "name"
        ∷ "provider_network_type" ∷ "provider_physical_network" ∷ "segments" ∷ [])
      ++ (if conf.preserve_network_availability_zone then "availability_zone_hints" ∷ [] else [])
      ++ (if conf.preserve_network_segmentation_id then "provider_segmentation_id" ∷ [] else [])

  -- The dependencies of a network.
  unfoldable pub network_dependencies : Object → List Resource
  unfolding report_identity_dependencies
  network_dependencies o = report_identity_dependencies conf [] (text_attribute o "project_id") none

  -- The arguments of `create_network`.
  unfoldable pub network_kwargs : Object → List MigratedResource → Result Kwargs
  unfolding network_fields copy_fields get_identity_build_kwargs update_kwargs
  network_kwargs o deps =
      result_map (λ identity. update_kwargs identity (copy_fields truth network_fields o end))
        (get_identity_build_kwargs conf "project_id" "user_id" deps (text_attribute o "project_id")
          none)

  unfoldable pub network_associated : String → Exec W (List Resource)
  unfolding network_dependencies
  network_associated i = do
    o ← get_or_raise clouds.source "network" i
    pure (network_dependencies o)

  unfoldable pub network_members : String → Exec W (List Resource)
  network_members i = do
    o ← get_or_raise clouds.source "network" i
    subnets ← clouds.source.list_all "subnet" (("network_id", o.id) ∷ [])
    pure (members_of "subnet" subnets)

  unfoldable pub network_perform : String → List MigratedResource → Exec W String
  unfolding network_kwargs
  network_perform i deps = do
    o ← get_or_raise clouds.source "network" i
    kwargs ← lift (network_kwargs o deps)
    created ← clouds.destination.create "network" kwargs
    pure created.id

  unfoldable pub network_handler : Handler W
  unfolding network_associated network_members network_perform
  network_handler = record {
    service_type = "neutron";
    get_associated_resources = network_associated;
    get_member_resources = network_members;
    get_source_resource_ids = source_resource_ids clouds.source "network" "project_id";
    perform_individual_migration = λ self i deps. on_world (network_perform i deps);
    connect_member_resources_to_parent = λ parent members. pure tt;
    delete_source_resource = clouds.source.delete "network";
  }
