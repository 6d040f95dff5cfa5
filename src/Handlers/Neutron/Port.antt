-- ===== src/Handlers/Neutron/Port.antt =====
-- handlers/neutron/port.py: `PortHandler`.
pub mod Complete
use sunbeam_migrate.Prelude.{
  String, true, false, not, Option, none, some, set?, List, [], ◌∷◌, ◌++◌, if◌then◌else◌,
}
use sunbeam_migrate.Config.{Config}
use sunbeam_migrate.Exec.{
  Exec, Result, ok, err, not_supported, type_error, pure, raise, lift, and_then, result_map, ◌>>=◌,
  ◌>>◌,
}
use sunbeam_migrate.Handlers.Interface.{Resource, MigratedResource, Handler, on_world}
use sunbeam_migrate.Handlers.Base.{
  dependency, text_of, reported, report_identity_dependencies, get_identity_build_kwargs,
  get_associated_resource_destination_id,
}
use sunbeam_migrate.Handlers.Sdk.{
  Value, text, list, dict, Items, nil, cons, end, entry, Object, Kwargs, truth, not_none, as_text,
  member, items_of, attribute, entry_set, copy_fields, update_kwargs, Clouds,
}
use sunbeam_migrate.Handlers.Common.{text_attribute, entries_of, with_field, get_or_raise}
use sunbeam_migrate.Handlers.Neutron.Router.{fixed_ip_subnets}

unfoldable pub port_fields : Config → List String
port_fields conf = with_field conf.preserve_port_mac_address "mac_address" (
    "admin_state_up" ∷ "allowed_address_pairs" ∷ "binding_vnic_type" ∷ "description" ∷ "dns_name"
    ∷ "extra_dhcp_opts" ∷ "name" ∷ "port_security_enabled" ∷ "tags" ∷ [])

-- The security groups that a list of ids names.
unfoldable pub group_resources : Items → List Resource
group_resources nil = []
group_resources (cons v vs) = dependency "security-group" (text_of (as_text v)) ∷ group_resources vs

-- The floating IPs of the port, which are to be cleaned up.
unfoldable pub floating_ip_resources : List Object → List Resource
floating_ip_resources [] = []
floating_ip_resources (o ∷ os) =
    record { resource_type = "floating-ip"; source_id = o.id; should_cleanup = true }
    ∷ floating_ip_resources os

-- `for sg_id in source_port.security_group_ids`: `None` cannot be iterated over.
abbrev pub group_ids : Object → Result Items
group_ids o =
    if not_none (attribute o "security_group_ids")
    then ok (items_of (attribute o "security_group_ids"))
    else err type_error

-- The security groups on the destination.
unfoldable pub destination_groups : List MigratedResource → Items → Result Items
unfolding get_associated_resource_destination_id
destination_groups deps nil = ok nil
destination_groups deps (cons v vs) =
    let rest = destination_groups deps vs in
    and_then (get_associated_resource_destination_id "security-group" (text_of (as_text v)) deps)
      (λ d. result_map (cons (text d)) rest)

-- A fixed IP, with the destination's subnet where it names one.
unfoldable pub destination_fixed_ip : List MigratedResource → Value → Result Value
unfolding get_associated_resource_destination_id
destination_fixed_ip deps ip =
    let subnet = as_text (member "subnet_id" ip) in
    if set? subnet
    then result_map (λ d. dict (entry_set "subnet_id" (text d) (entries_of ip)))
        (get_associated_resource_destination_id "subnet" (text_of subnet) deps)
    else ok ip

unfoldable pub destination_fixed_ips : List MigratedResource → Items → Result Items
unfolding destination_fixed_ip
destination_fixed_ips deps nil = ok nil
destination_fixed_ips deps (cons ip ips) =
    let rest = destination_fixed_ips deps ips in
    and_then (destination_fixed_ip deps ip) (λ v. result_map (cons v) rest)

-- `if values: kwargs[key] = values`
abbrev pub set_items : String → Items → Kwargs → Kwargs
set_items key vs kwargs = if truth (list vs) then entry_set key (list vs) kwargs else kwargs

module _ {W : Type 0} (conf : Config) (clouds : Clouds W) where
  -- The dependencies, but for the floating IPs.
  unfoldable pub port_dependencies : Object → List Resource
  unfolding report_identity_dependencies fixed_ip_subnets group_resources
  port_dependencies o =
      report_identity_dependencies conf [] (text_attribute o "project_id") none
      ++ reported "network" (text_attribute o "network_id")
      ++ fixed_ip_subnets (items_of (attribute o "fixed_ips"))
      ++ group_resources (items_of (attribute o "security_group_ids"))

  -- The arguments of `create_port`.
  unfoldable pub port_kwargs : Object → List MigratedResource → Result Kwargs
  unfolding get_associated_resource_destination_id port_fields copy_fields destination_groups
      destination_fixed_ips get_identity_build_kwargs update_kwargs
  port_kwargs o deps =
      and_then
        (get_associated_resource_destination_id "network" (text_of (text_attribute o "network_id"))
          deps)
        λ network. and_then (and_then (group_ids o) (destination_groups deps)) λ groups.
          and_then (destination_fixed_ips deps (items_of (attribute o "fixed_ips"))) λ ips.
            let kwargs = set_items "security_group_ids" groups (
              entry_set "network_id" (text network)
                (copy_fields not_none (port_fields conf) o end)) in
            let with_ips =
              if conf.preserve_port_fixed_ips then set_items "fixed_ips" ips kwargs else kwargs in
            result_map (λ identity. update_kwargs identity with_ips)
              (get_identity_build_kwargs conf "project_id" "user_id" deps
                (text_attribute o "project_id") none)

  -- The floating IPs that move with the port.
  unfoldable pub port_floating_ips : String → Exec W (List Object)
  port_floating_ips i =
      if conf.preserve_port_floating_ip
      then clouds.source.list_all "floating-ip" (("port_id", i) ∷ [])
      else pure []

  unfoldable pub port_associated : String → Exec W (List Resource)
  unfolding port_dependencies floating_ip_resources port_floating_ips
  port_associated i = do
    o ← get_or_raise clouds.source "port" i
    fips ← port_floating_ips i
    pure (port_dependencies o ++ floating_ip_resources fips)

  -- The loop that attaches the floating IPs to the new port.
  unfoldable pub reattach : String → List MigratedResource → List Object → Exec W (Unit {0})
  unfolding get_associated_resource_destination_id
  reattach port deps [] = pure tt
  reattach port deps (fip ∷ fips) =
      let rest = reattach port deps fips in
      do
        d ← lift (get_associated_resource_destination_id "floating-ip" fip.id deps)
        clouds.destination.update "floating-ip" d (entry "port_id" (text port) end)
        rest

  unfoldable pub port_perform : String → List MigratedResource → Exec W String
  unfolding port_kwargs port_floating_ips reattach
  port_perform i deps = do
    o ← get_or_raise clouds.source "port" i
    kwargs ← lift (port_kwargs o deps)
    fips ← port_floating_ips i
    created ← clouds.destination.create "port" kwargs
    reattach created.id deps fips
    pure created.id

  unfoldable pub port_handler : Handler W
  unfolding port_associated port_perform
  port_handler = record {
    service_type = "neutron";
    get_associated_resources = port_associated;
    get_member_resources = λ i. pure [];
    get_source_resource_ids = λ filters. raise not_supported;
    perform_individual_migration = λ self i deps. on_world (port_perform i deps);
    connect_member_resources_to_parent = λ parent members. pure tt;
    delete_source_resource = clouds.source.delete "port";
  }
