-- ===== src/Handlers/Neutron/Router.antt =====
-- handlers/neutron/router.py: `RouterHandler`, and utils/neutron_utils.py.
use package.text.Mathlib.Text.{starts_with}
use sunbeam_migrate.Prelude.{
  String, Bool, not, ◌||◌, Option, none, some, List, [], ◌∷◌, ◌++◌, set?, if◌then◌else◌,
}
use sunbeam_migrate.Config.{Config}
use sunbeam_migrate.Exec.{
  Error, Exec, Result, ok, sdk_conflict, pure, raise, lift, try_except, and_then, result_map, ◌>>=◌,
  ◌>>◌,
}
use sunbeam_migrate.Handlers.Interface.{Resource, MigratedResource, Handler, on_world}
use sunbeam_migrate.Handlers.Base.{
  dependency, text_of, reported, contains, report_identity_dependencies, get_identity_build_kwargs,
  get_associated_resource_destination_id,
}
use sunbeam_migrate.Handlers.Sdk.{
  Value, text, list, dict, Items, nil, cons, Entries, end, entry, Object, Kwargs, truth, not_none,
  as_text, member, items_of, attribute, entry_set, copy_fields, update_kwargs, Clouds,
}
use sunbeam_migrate.Handlers.Common.{entries_of, text_attribute, get_or_raise, source_resource_ids}

-- The subnets that a list of fixed IPs names.
unfoldable pub fixed_ip_subnets : Items → List Resource
fixed_ip_subnets nil = []
fixed_ip_subnets (cons ip ips) =
    reported "subnet" (as_text (member "subnet_id" ip)) ++ fixed_ip_subnets ips

-- `getattr(port, "device_owner", "") or ""` of a port inside a tenant's network
unfoldable pub is_router_interface : String → Bool
is_router_interface owner =
    starts_with owner "network:router_interface"
    || starts_with owner "network:router_interface_distributed"
    || starts_with owner "network:ha_router_replicated_interface"

-- `member_subnet_ids.add(subnet_id)`
abbrev pub set_add : Option String → List String → List String
set_add x ids =
    if set? x then (if contains (text_of x) ids then ids else ids ++ text_of x ∷ []) else ids

unfoldable pub add_subnets : Items → List String → List String
add_subnets nil ids = ids
add_subnets (cons ip ips) ids = add_subnets ips (set_add (as_text (member "subnet_id" ip)) ids)

-- The loop over the ports of the router.
unfoldable pub interface_subnets : List Object → List String → List String
unfolding is_router_interface add_subnets
interface_subnets [] ids = ids
interface_subnets (port ∷ ports) ids = interface_subnets ports (
    if is_router_interface (text_of (text_attribute port "device_owner"))
    then add_subnets (items_of (attribute port "fixed_ips")) ids
    else ids)

abbrev pub subnet_resources : List String → List Resource
subnet_resources [] = []
subnet_resources (i ∷ is) = dependency "subnet" i ∷ subnet_resources is

module _ {W : Type 0} (conf : Config) (clouds : Clouds W) where
  -- The dependencies that the external gateway adds.
  unfoldable pub gateway_dependencies : Value → List Resource
  unfolding fixed_ip_subnets
  gateway_dependencies gateway =
      let network = as_text (member "network_id" gateway) in
      if set? network
      then dependency "network" (text_of network)
        ∷ fixed_ip_subnets (items_of (member "external_fixed_ips" gateway))
      else []

  unfoldable pub router_dependencies : Object → List Resource
  unfolding report_identity_dependencies gateway_dependencies
  router_dependencies o =
      report_identity_dependencies conf [] (text_attribute o "project_id") none
      ++ gateway_dependencies (attribute o "external_gateway_info")

  -- One entry of the new list of fixed IPs.
  unfoldable pub fixed_ip_entry : Value → String → Entries
  fixed_ip_entry ip subnet =
      let address = member "ip_address" ip in
      if truth address
      then (if conf.preserve_router_ip
          then entry "subnet_id" (text subnet) (entry "ip_address" address end)
          else entry "subnet_id" (text subnet) end)
      else entry "subnet_id" (text subnet) end

  -- The loop of `_prepare_external_gateway_info` over the fixed IPs.
  unfoldable pub new_fixed_ips : List MigratedResource → Items → Result Items
  unfolding fixed_ip_entry get_associated_resource_destination_id
  new_fixed_ips deps nil = ok nil
  new_fixed_ips deps (cons ip ips) =
      let rest = new_fixed_ips deps ips in
      let subnet = as_text (member "subnet_id" ip) in
      if not (set? subnet)
      then rest
      else and_then (get_associated_resource_destination_id "subnet" (text_of subnet) deps)
          (λ dest. result_map (cons (dict (fixed_ip_entry ip dest))) rest)

  -- The gateway's network on the destination, if there is one.
  unfoldable pub new_gateway : List MigratedResource → Value → Result Entries
  unfolding get_associated_resource_destination_id
  new_gateway deps gateway =
      let network = as_text (member "network_id" gateway) in
      if set? network
      then result_map (λ dest. entry_set "network_id" (text dest) (entries_of gateway))
          (get_associated_resource_destination_id "network" (text_of network) deps)
      else ok (entries_of gateway)

  -- `_prepare_external_gateway_info`
  unfoldable pub prepare_external_gateway_info :
      Value → List MigratedResource → Result (Option Value)
  unfolding new_fixed_ips new_gateway
  prepare_external_gateway_info gateway deps =
      if not (truth gateway)
      then ok none
      else and_then (new_gateway deps gateway) λ info.
        result_map (λ ips. some (dict (entry_set "external_fixed_ips" (list ips) info)))
          (new_fixed_ips deps (items_of (member "external_fixed_ips" gateway)))

  unfoldable pub router_fields : List String
  router_fields =
      ("description" ∷ "flavor_id" ∷ "is_admin_state_up" ∷ "is_distributed" ∷ "is_ha" ∷ "name" ∷ [])
      ++ (if conf.preserve_router_availability_zone then "availability_zone_hints" ∷ [] else [])

  abbrev set_gateway : Option Value → Kwargs → Kwargs
  set_gateway none kwargs = kwargs
  set_gateway (some info) kwargs = entry_set "external_gateway_info" info kwargs

  -- The arguments of `create_router`.
  unfoldable pub router_kwargs : Object → List MigratedResource → Result Kwargs
  unfolding prepare_external_gateway_info router_fields copy_fields get_identity_build_kwargs
      update_kwargs
  router_kwargs o deps =
      and_then (prepare_external_gateway_info (attribute o "external_gateway_info") deps) λ info.
        let kwargs = set_gateway info (copy_fields not_none router_fields o end) in
        result_map (λ identity. update_kwargs identity kwargs)
          (get_identity_build_kwargs conf "project_id" "user_id" deps
            (text_attribute o "project_id") none)

  unfoldable pub router_associated : String → Exec W (List Resource)
  unfolding router_dependencies
  router_associated i = do o ← get_or_raise clouds.source "router" i; pure (router_dependencies o)

  -- `get_router_interface_subnets`
  unfoldable pub get_router_interface_subnets : String → Exec W (List String)
  unfolding interface_subnets
  get_router_interface_subnets i = do
    o ← get_or_raise clouds.source "router" i
    ports ← clouds.source.list_all "port" (("device_id", o.id) ∷ [])
    pure (clouds.set_order (interface_subnets ports []))

  unfoldable pub router_members : String → Exec W (List Resource)
  unfolding get_router_interface_subnets
  router_members i = do
    get_or_raise clouds.source "router" i
    subnets ← get_router_interface_subnets i
    pure (subnet_resources subnets)

  unfoldable pub router_perform : String → List MigratedResource → Exec W String
  unfolding router_kwargs
  router_perform i deps = do
    o ← get_or_raise clouds.source "router" i
    kwargs ← lift (router_kwargs o deps)
    created ← clouds.destination.create "router" kwargs
    pure created.id

  -- `except openstack_exc.ConflictException:`
  abbrev pub ignore_conflict : Error → Exec W (Unit {0})
  ignore_conflict (sdk_conflict m) = pure tt
  ignore_conflict e = raise e

  -- `connect_member_resources_to_parent`
  unfoldable pub connect_subnets : Option String → List MigratedResource → Exec W (Unit {0})
  connect_subnets parent [] = pure tt
  connect_subnets parent (m ∷ ms) =
      let rest = connect_subnets parent ms in
      try_except (clouds.destination.add_interface_to_router parent m.destination_id)
        ignore_conflict
      >> rest

  unfoldable pub router_handler : Handler W
  unfolding router_associated router_members router_perform connect_subnets
  router_handler = record {
    service_type = "neutron";
    get_associated_resources = router_associated;
    get_member_resources = router_members;
    get_source_resource_ids = source_resource_ids clouds.source "router" "project_id";
    perform_individual_migration = λ self i deps. on_world (router_perform i deps);
    connect_member_resources_to_parent = connect_subnets;
    delete_source_resource = clouds.source.delete "router";
  }
