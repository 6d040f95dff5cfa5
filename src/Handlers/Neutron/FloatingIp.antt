-- ===== src/Handlers/Neutron/FloatingIp.antt =====
-- handlers/neutron/floating_ip.py: `FloatingIPHandler`. The module `ipaddress` is a parameter.
use Prim.Native.Nat.{Ordering}
use Prim.Native.String.{compare}
use sunbeam_migrate.Prelude.{
  String, Bool, true, false, not, ◌&&◌, Option, none, some, set?, opt_eq, List, [], ◌∷◌, ◌++◌,
  if◌then◌else◌,
}
use sunbeam_migrate.Config.{Config}
use sunbeam_migrate.Exec.{
  Error, not_found, value_error, unbound_local, Exec, Result, ok, err, pure, raise, lift,
  try_except, and_then, result_map, ◌>>=◌, ◌>>◌,
}
use sunbeam_migrate.Handlers.Interface.{Resource, MigratedResource, Handler, on_world}
use sunbeam_migrate.Handlers.Base.{
  dependency, text_of, reported, contains, report_identity_dependencies, get_identity_build_kwargs,
  get_associated_resource_destination_id,
}
use sunbeam_migrate.Handlers.Sdk.{
  text, Items, nil, cons, end, Object, Kwargs, not_none, as_text, member, items_of, attribute,
  entry_set, copy_fields, update_kwargs, Clouds,
}
use sunbeam_migrate.Handlers.Common.{text_attribute, with_field, get_or_raise, source_resource_ids}
use sunbeam_migrate.Handlers.Neutron.Router.{subnet_resources, get_router_interface_subnets}

-- `ipaddress.ip_address` parses an address; `addr in ip_network(cidr, strict=False)`, where a text
-- that is no network is an error.
pub record Addresses : Type 0 where
  pub is_address : String → Bool
  pub in_network : String → String → Option Bool

-- `sorted(…)` of the few texts of a set.
abbrev pub before : String → String → Bool
before a b = elim (compare a b) [ Ordering.gt ↦ false | _ ↦ true ]

unfoldable pub insert_text : String → List String → List String
insert_text x [] = x ∷ []
insert_text x (y ∷ ys) = let rest = insert_text x ys in if before x y then x ∷ y ∷ ys else y ∷ rest

unfoldable pub sorted : List String → List String
unfolding insert_text
sorted [] = []
sorted (x ∷ xs) = insert_text x (sorted xs)

-- The set of `subnet_id` and of the subnet that was found.
abbrev pub subnet_set : Option String → Option String → List String
subnet_set none none = []
subnet_set none (some s) = s ∷ []
subnet_set (some i) none = i ∷ []
subnet_set (some i) (some s) = if contains s (i ∷ []) then i ∷ [] else i ∷ s ∷ []

-- `if x: …`, as a value that is there or not.
abbrev pub if_set : Option String → Option String
if_set x = if set? x then x else none

-- The router and its subnet that a floating IP's port is behind.
abbrev pub Found : Type 0
Found = Option (String × String)

abbrev pub router_resources : Found → List Resource
router_resources none = []
router_resources (some (router, subnet)) =
    dependency "router" router ∷ dependency "subnet" subnet ∷ []

-- `if router_id and router_subnet_id:`
abbrev pub both_set : Found → Found
both_set none = none
both_set (some (router, subnet)) =
    if set? (some router) && set? (some subnet) then some (router, subnet) else none

module _ (addresses : Addresses) where
  -- The first subnet of the network that holds the address.
  unfoldable pub subnet_with : String → List Object → Result (Option String)
  subnet_with address [] = ok none
  subnet_with address (s ∷ ss) =
      let rest = subnet_with address ss in
      let cidr = text_attribute s "cidr" in
      if not (set? cidr) then rest else elim (addresses.in_network address (text_of cidr)) [
        | none ↦ err value_error
        | some true ↦ ok (some s.id)
        | some false ↦ rest
      ]

module _ {W : Type 0} (conf : Config) (clouds : Clouds W) where
  -- The loops of `_get_router_from_floating_ip`: the subnet of the first fixed IP, port and router
  -- that lies on the network of the floating IP's port.
  unfoldable pub search_fixed_ips : Option String → Items → Exec W (Option String)
  search_fixed_ips network nil = pure none
  search_fixed_ips network (cons ip ips) =
      let rest = search_fixed_ips network ips in
      let subnet_id = text_of (as_text (member "subnet_id" ip)) in
      do
        found ← clouds.source.get "subnet" subnet_id
        elim found [
          | none ↦ rest
          | some subnet ↦
              if opt_eq (text_attribute subnet "network_id") network
              then pure (some subnet_id)
              else rest
        ]

  unfoldable pub search_ports : Option String → List Object → Exec W (Option String)
  unfolding search_fixed_ips
  search_ports network [] = pure none
  search_ports network (port ∷ ports) =
      let rest = search_ports network ports in
      do
        found ← search_fixed_ips network (items_of (attribute port "fixed_ips"))
        elim found [ none ↦ rest | some subnet ↦ pure (some subnet) ]

  unfoldable pub search_routers : Option String → List Object → Exec W Found
  unfolding search_ports
  search_routers network [] = pure none
  search_routers network (router ∷ routers) =
      let rest = search_routers network routers in
      do
        ports ←
            clouds.source.list_all "port"
              (("device_id", router.id) ∷ ("device_owner", "network:router_interface") ∷ [])
        found ← search_ports network ports
        elim found [ none ↦ rest | some subnet ↦ pure (some (router.id, subnet)) ]

  -- `_get_router_from_floating_ip`
  unfoldable pub get_router_from_floating_ip : Object → Exec W Found
  unfolding search_routers
  get_router_from_floating_ip o = do
    routers ← clouds.source.list_all "router" []
    search_routers (as_text (member "network_id" (attribute o "port_details"))) routers

  module _ (addresses : Addresses) where
    -- The subnet by the address. Without an address the variable `floating_ip_addr` is not set.
    unfoldable pub subnet_by_address : Object → Exec W (Option String)
    unfolding subnet_with
    subnet_by_address o =
        let address = text_attribute o "floating_ip_address" in
        if not (set? address)
        then raise unbound_local
        else if not (addresses.is_address (text_of address))
        then raise value_error
        else (do
          subnets ←
              clouds.source.list_all "subnet"
                (("network_id", text_of (text_attribute o "floating_network_id")) ∷ [])
          lift (subnet_with addresses (text_of address) subnets))

    unfoldable pub floating_ip_associated : String → Exec W (List Resource)
    unfolding report_identity_dependencies subnet_by_address sorted get_router_from_floating_ip
    floating_ip_associated i = do
      o ← get_or_raise clouds.source "floating-ip" i
      subnet ← subnet_by_address o
      found ← get_router_from_floating_ip o
      pure (
          report_identity_dependencies conf [] (text_attribute o "project_id") none
          ++ reported "network" (text_attribute o "floating_network_id")
          ++ subnet_resources (sorted (subnet_set (if_set (text_attribute o "subnet_id")) subnet))
          ++ router_resources (both_set found))

  -- Where the address is to be kept, it is a field like the others.
  unfoldable pub floating_ip_kwargs : Object → List MigratedResource → Result Kwargs
  unfolding get_associated_resource_destination_id copy_fields
  floating_ip_kwargs o deps =
      and_then
        (get_associated_resource_destination_id "network"
          (text_of (text_attribute o "floating_network_id")) deps)
        λ network.
          let kwargs = entry_set "floating_network_id" (text network) (
            copy_fields not_none
              (with_field conf.preserve_port_floating_ip_address "floating_ip_address"
                ("description" ∷ "dns_domain" ∷ "dns_name" ∷ []))
              o end) in
          let subnet = text_attribute o "subnet_id" in
          if set? subnet
          then result_map
              (λ s. if set? (some s) then entry_set "subnet_id" (text s) kwargs else kwargs)
              (get_associated_resource_destination_id "subnet" (text_of subnet) deps)
          else ok kwargs

  -- The `try` block that connects the port's subnet to the router on the destination.
  unfoldable pub connect_router : String → String → List MigratedResource → Exec W (Unit {0})
  unfolding get_associated_resource_destination_id get_router_interface_subnets
  connect_router router subnet deps = do
    r ← lift (get_associated_resource_destination_id "router" router deps)
    s ← lift (get_associated_resource_destination_id "subnet" subnet deps)
    connected ← get_router_interface_subnets conf (record clouds { source = clouds.destination }) r
    if contains s connected then pure tt else clouds.destination.add_interface_to_router (some r) s

  -- `except exception.NotFound:`
  abbrev pub skip_not_found : Error → Exec W (Unit {0})
  skip_not_found not_found = pure tt
  skip_not_found e = raise e

  unfoldable pub connect_found : Found → List MigratedResource → Exec W (Unit {0})
  unfolding connect_router
  connect_found none deps = pure tt
  connect_found (some (router, subnet)) deps =
      try_except (connect_router router subnet deps) skip_not_found

  unfoldable pub floating_ip_perform : String → List MigratedResource → Exec W String
  unfolding floating_ip_kwargs get_router_from_floating_ip connect_found get_identity_build_kwargs
      update_kwargs
  floating_ip_perform i deps = do
    o ← get_or_raise clouds.source "floating-ip" i
    kwargs ← lift (floating_ip_kwargs o deps)
    found ← get_router_from_floating_ip o
    connect_found (both_set found) deps
    identity ← lift (
        get_identity_build_kwargs conf "project_id" "user_id" deps (text_attribute o "project_id")
          none)
    created ← clouds.destination.create "floating-ip" (update_kwargs identity kwargs)
    pure created.id

  unfoldable pub floating_ip_handler : Addresses → Handler W
  unfolding floating_ip_associated floating_ip_perform
  floating_ip_handler addresses = record {
    service_type = "neutron";
    get_associated_resources = floating_ip_associated addresses;
    get_member_resources = λ i. pure [];
    get_source_resource_ids = source_resource_ids clouds.source "floating-ip" "project_id";
    perform_individual_migration = λ self i deps. on_world (floating_ip_perform i deps);
    connect_member_resources_to_parent = λ parent members. pure tt;
    delete_source_resource = clouds.source.delete "floating-ip";
  }
